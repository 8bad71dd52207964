-- ===== src/Repository/Reports.antt =====
-- What a result of ProcessEventTx tells its caller.
use senior_backend_order_ing.Prelude.{
  ℕ, ◌+◌, String, ◌≡◌, ◌≢◌, refl, true, false, inl, inr, Result, ok, err, if◌then◌else◌, length,
  arith, eq_iff, Option-cases,
}
use senior_backend_order_ing.Domain.{OrderEvent, Classification}
use senior_backend_order_ing.Domain.Transitions.{Classifies}
use senior_backend_order_ing.Database.{Db, Environment}
use senior_backend_order_ing.Database.Table.{has}
use senior_backend_order_ing.Database.Statements.{processed_key}
use senior_backend_order_ing.Repository.Transaction.{Error, Session}
use senior_backend_order_ing.Repository.Validation.{validate_event}
use senior_backend_order_ing.Repository.Process.{ProcessResult, process_event_tx}
use senior_backend_order_ing.Repository.Model.{status_of, process_model}
use senior_backend_order_ing.Repository.Induction.{loaded, process_model-cases}
use senior_backend_order_ing.Repository.Refinement.Commit.{Ends, process_event_tx-Ends}
use senior_backend_order_ing.Repository.Refinement.Process.{Stores}
use senior_backend_order_ing.Repository.Invariant.{IsSound, IsConsistent-IsSound}
use senior_backend_order_ing.Repository.Effects.{
  order_history, process_model_counts, process_model-IsUntouched,
}
use senior_backend_order_ing.Repository.Stopped.{HasStopped, process_model_stops}

-- The flags of a result say the same as its classification.
abbrev pub FlagsAgree : ProcessResult → Classification → Type 0
FlagsAgree r Classification.applied =
    (r.applied ≡ true) × (r.duplicate ≡ false) × (r.pending ≡ false) × (r.dead_letter ≡ false)
FlagsAgree r Classification.duplicate_status =
    (r.applied ≡ false) × (r.duplicate ≡ true) × (r.pending ≡ false) × (r.dead_letter ≡ false)
FlagsAgree r Classification.duplicate_event =
    (r.applied ≡ false) × (r.duplicate ≡ true) × (r.pending ≡ false) × (r.dead_letter ≡ false)
FlagsAgree r Classification.out_of_order =
    (r.applied ≡ false) × (r.duplicate ≡ false) × (r.pending ≡ true) × (r.dead_letter ≡ false)
FlagsAgree r Classification.invalid_transition =
    (r.applied ≡ false) × (r.duplicate ≡ false) × (r.pending ≡ false) × (r.dead_letter ≡ true)

-- The tables `after` agree with the result of an event that was processed at the tables `before`.
pub record IsReport (env : Environment) (event : OrderEvent) (before : Db) (r : ProcessResult)
    (after : Db) : Type 0 where
  -- the IDs are the event's, and the flags are the classification's
  pub same_event : r.event_id ≡ event.event_id
  pub same_order : r.order_id ≡ event.order_id
  pub flags : FlagsAgree r r.classification
  -- a new event is classified as the state machine says, from the status that is stored
  pub classified :
      has processed_key event.event_id before.processed ≡ false
      → Classifies (loaded env 0 event before).0 event.status r.classification
  -- an old one is a duplicate
  pub old :
      has processed_key event.event_id before.processed ≡ true
      → r.classification ≡ Classification.duplicate_event
  -- every transition that was made is reported
  pub counted :
      length after.history
      ≡ length before.history + (if r.applied then 1 + r.replayed_pending else 0)
  -- after an applied event, the first deferred event of the order, if one is left, is still ahead
  pub stopped : r.applied ≡ true → HasStopped env event.order_id after

module _ (env : Environment) (now : ℕ) (event : OrderEvent) (stored : String) (db : Db) where
  abbrev Reports : ProcessResult → Db → Type 0
  Reports r after =
      (r.event_id ≡ event.event_id)
      × (r.order_id ≡ event.order_id)
      × FlagsAgree r r.classification
      × (has processed_key event.event_id db.processed ≡ false
          → Classifies (loaded env 0 event db).0 event.status r.classification)
      × (has processed_key event.event_id db.processed ≡ true
          → r.classification ≡ Classification.duplicate_event)

  process_model-Reports : let (r, after) = process_model env now event stored db in Reports r after
  process_model-Reports = process_model-cases env now event stored db Reports (record {
    on_old = λ old. (refl, refl, (refl, refl, refl, refl), (λ new. cc (old, new)), (λ _. refl));
    on_applied =
        λ new c reason. (refl, refl, (refl, refl, refl, refl), (λ _. c), (λ old. cc (old, new)));
    on_duplicate_status =
        λ new c reason. (refl, refl, (refl, refl, refl, refl), (λ _. c), (λ old. cc (old, new)));
    on_out_of_order =
        λ new c reason. (refl, refl, (refl, refl, refl, refl), (λ _. c), (λ old. cc (old, new)));
    on_invalid =
        λ new c reason. (refl, refl, (refl, refl, refl, refl), (λ _. c), (λ old. cc (old, new)));
  })

  pub process_model-IsReport :
      let (r, after) = process_model env now event stored db in IsReport env event db r after
  process_model-IsReport =
      let report = process_model-Reports in
      record {
        same_event = report.0;
        same_order = report.1;
        flags = report.2;
        classified = report.3;
        old = report.4;
        counted = process_model_counts env now event stored db;
        stopped = process_model_stops env now event stored db;
      }

-- An order has the same status and the same history.
abbrev pub IsSameFor : String → Db → Db → Type 0
IsSameFor other before after =
    (status_of other after ≡ status_of other before)
    × (order_history other after.history ≡ order_history other before.history)

module _ (env : Environment) where
  IsReport-of_Ends :
      (offered : String) (event : OrderEvent) (result : ProcessResult) (before after : Db)
      (r : Result Error ProcessResult × Session) (x : ProcessResult)
      → Ends env offered (result, after) before r
      → r.0 ≡ ok x
      → IsReport env event before result after
      → IsReport env event before x r.1.durable
  IsReport-of_Ends offered event result before after (ok y, s) x ends done h =
      let same : x ≡ result = cc (done, ends.0) in rw (same, ends.1) h
  IsReport-of_Ends offered event result before after (err y, s) x ends done h = cc done

  -- What the JSONB columns give back of a payload; of one that they refuse, any text serves.
  stored_of : (payload : String) → (stored : String) × Stores env payload stored
  stored_of payload = elim (Option-cases (env.jsonb payload)) [
    | inl refused ↦ ("{}", inr refused)
    | inr (stored, e) ↦ (stored, inl e)
  ]

  -- For an event that validation accepts, from sound tables: what ProcessEventTx returns without an
  -- error is a true report. The IDs are the event's; a new event has the classification of the
  -- state machine at the stored status of its order, an old one is a duplicate; the flags agree
  -- with the classification; the history has grown by exactly the transitions that are reported;
  -- and after an applied event the first deferred event of the order by timestamp, if one is left, is
  -- still ahead of the order's stored status (others may be left behind it).
  pub process_event_tx-IsReport :
      (event : OrderEvent) (payload : String) (s : Session) (x : ProcessResult)
      → IsSound env s.durable
      → validate_event env event ≡ ok payload
      → (process_event_tx env event s).0 ≡ ok x
      → IsReport env event s.durable x (process_event_tx env event s).1.durable
  process_event_tx-IsReport event payload s x h valid done =
      let (stored, stores) = stored_of payload in
      IsReport-of_Ends payload event _ s.durable _ (process_event_tx env event s) x
        (process_event_tx-Ends env event payload stored s (IsConsistent-IsSound env s.durable h)
          valid stores)
        done (process_model-IsReport env (env.clock s.calls) event stored s.durable)

  untouched_of_Ends :
      (offered : String) (other : String) (result : ProcessResult) (before after : Db)
      (r : Result Error ProcessResult × Session)
      → Ends env offered (result, after) before r
      → IsSameFor other before after
      → IsSameFor other before r.1.durable
  untouched_of_Ends offered other result before after (ok y, s) ends h = rw ends.1 h
  untouched_of_Ends offered other result before after (err y, s) (inl kept, ne, broken) h =
      rw kept (refl, refl)
  untouched_of_Ends offered other result before after (err y, s) (inr lost, ne, broken) h =
      rw lost.0 h

  -- From sound tables, a call for an acceptable event of one order leaves the status and the
  -- history of every other order as they were, however it ends.
  pub process_event_tx_others :
      (event : OrderEvent) (payload : String) (s : Session) (other : String)
      → IsSound env s.durable
      → validate_event env event ≡ ok payload
      → event.order_id ≢ other
      → IsSameFor other s.durable (process_event_tx env event s).1.durable
  process_event_tx_others event payload s other h valid ne =
      let (stored, stores) = stored_of payload in
      untouched_of_Ends payload other _ s.durable _ (process_event_tx env event s)
        (process_event_tx-Ends env event payload stored s (IsConsistent-IsSound env s.durable h)
          valid stores)
        (process_model-IsUntouched env (env.clock s.calls) other event stored s.durable
          (ground (arith, eq_iff event.order_id other)))
