-- ===== src/Repository/Idempotence.antt =====
-- An event ID is processed once: later deliveries are reported as duplicates and change nothing.
use text.Mathlib.TextPositions.{eq_refl}
use senior_backend_order_ing.Prelude.{
  some, ℕ, String, ◌≡◌, refl, ◌∙◌, Bool, true, false, arith, eq_iff, inl, inr, Result, ok, err,
  if◌then◌else◌, str_eq,
}
use senior_backend_order_ing.Domain.{Status, OrderEvent, Classification}
use senior_backend_order_ing.Database.{Outcome, Db, Environment}
use senior_backend_order_ing.Database.Table.{has, has-update_by}
use senior_backend_order_ing.Database.Statements.{processed_key, set_outcome}
use senior_backend_order_ing.Repository.Transaction.{Error, Session}
use senior_backend_order_ing.Repository.Validation.{validate_event}
use senior_backend_order_ing.Repository.Statements.{event_of_row}
use senior_backend_order_ing.Repository.Process.{
  ProcessResult, duplicate_event_result, process_event_tx,
}
use senior_backend_order_ing.Repository.Model.{applied_db, outcome_db, process_model}
use senior_backend_order_ing.Repository.Induction.{
  Rounds, replay_pending-induction, recorded, process_model-cases,
}
use senior_backend_order_ing.Repository.Refinement.Commit.{Ends, process_event_tx-Ends}
use senior_backend_order_ing.Repository.Invariant.{
  IsSound, IsStorable, IsConsistent-IsSound, process_event_tx-IsSound,
}

module _ (env : Environment) (now : ℕ) where
  -- An outcome changes no event ID.
  has-outcome_db :
      (event_id e : String) (c : Classification) (db : Db)
      → has processed_key e (outcome_db env now event_id c db).processed
        ≡ has processed_key e db.processed
  has-outcome_db event_id e c db =
      has-update_by processed_key event_id e (set_outcome (Outcome.classified c)) db.processed
        (λ r. refl)

  has-applied_db :
      (event : OrderEvent) (current : Status) (order_exists : Bool) (db : Db) (e : String)
      → has processed_key e
          (outcome_db env now event.event_id Classification.applied
            (applied_db env now event current order_exists db)).processed
        ≡ has processed_key e db.processed
  has-applied_db event current true db e = has-outcome_db event.event_id e Classification.applied db
  has-applied_db event current false db e =
      has-outcome_db event.event_id e Classification.applied db

  replay_processed :
      (order_id e : String)
      → Rounds env now order_id (λ current count db. has processed_key e db.processed ≡ true)
  replay_processed order_id e = record {
    on_applied = λ r current count db selected c h.
        has-outcome_db r.event_id e Classification.applied
          (applied_db env now (event_of_row r) current true db)
        ∙ h;
    on_duplicate = λ r current count db selected h.
        has-outcome_db r.event_id e Classification.duplicate_status db ∙ h;
    on_invalid = λ r reason current count db selected h.
        has-outcome_db r.event_id e Classification.invalid_transition db ∙ h;
  }

  -- The event is processed afterwards, and so is every event that was.
  pub process_model_processed :
      (event : OrderEvent) (stored : String) (db : Db) (e : String)
      → (if str_eq event.event_id e then true else has processed_key e db.processed) ≡ true
      → has processed_key e (process_model env now event stored db).1.processed ≡ true
  unfolding has
  process_model_processed event stored db e h =
      process_model-cases env now event stored db
        (λ result after. has processed_key e after.processed ≡ true)
        (record {
          on_old = λ old. ground (arith, eq_iff event.event_id e);
          on_applied = λ new c reason.
              (replay_pending-induction env now event.order_id _ (replay_processed event.order_id e)
                event.status _ (has-applied_db event _ _ (recorded env now event db) e ∙ h)).1;
          on_duplicate_status =
              λ new c reason. has-outcome_db event.event_id e _ (recorded env now event db) ∙ h;
          on_out_of_order =
              λ new c reason. has-outcome_db event.event_id e _ (recorded env now event db) ∙ h;
          on_invalid =
              λ new c reason. has-outcome_db event.event_id e _ (recorded env now event db) ∙ h;
        })

  process_model_old :
      (event : OrderEvent) (stored : String) (db : Db)
      → has processed_key event.event_id db.processed ≡ true
      → process_model env now event stored db ≡ (duplicate_event_result event, db)
  unfolding process_model
  process_model_old event stored db old = rw old

module _ (env : Environment) where
  -- How a call ends that only finds a duplicate: nothing is changed, and it reports the duplicate
  -- unless a call of the driver fails.
  abbrev pub EndsAsDuplicate : OrderEvent → Db → Result Error ProcessResult × Session → Type 0
  EndsAsDuplicate event before (ok r, s) = (r ≡ duplicate_event_result event) × (s.durable ≡ before)
  EndsAsDuplicate event before (err e, s) = (s.durable ≡ before) × ((n : ℕ) × (env.fault n ≡ true))

  duplicate_of_Ends :
      (offered : String) {stored : String} (event : OrderEvent) (before : Db)
      → env.jsonb offered ≡ some stored
      → (r : Result Error ProcessResult × Session)
      → Ends env offered (duplicate_event_result event, before) before r
      → EndsAsDuplicate event before r
  duplicate_of_Ends offered event before accepted (ok x, s) e = e
  duplicate_of_Ends offered event before accepted (err x, s) (inl kept, ne, inl broken) =
      (kept, broken)
  duplicate_of_Ends offered event before accepted (err x, s) (inr lost, ne, inl broken) =
      (lost.0, broken)
  duplicate_of_Ends offered event before accepted (err x, s) (kept, ne, inr refused) =
      cc (accepted, refused)

  -- A call for an event whose ID has been processed, with whatever contents, leaves the committed
  -- tables as they are, and returns the duplicate's result unless a call of the driver fails.
  pub process_event_tx_old :
      (event : OrderEvent) (payload stored : String) (s : Session)
      → IsSound env s.durable
      → validate_event env event ≡ ok payload
      → env.jsonb payload ≡ some stored
      → has processed_key event.event_id s.durable.processed ≡ true
      → EndsAsDuplicate event s.durable (process_event_tx env event s)
  process_event_tx_old event payload stored s h valid accepted old =
      duplicate_of_Ends payload event s.durable accepted (process_event_tx env event s) (
        rw (process_model_old env (env.clock s.calls) event stored s.durable old) at (
          process_event_tx-Ends env event payload stored s (IsConsistent-IsSound env s.durable h)
            valid (inl accepted)))

  pub processed_of_Ends :
      (offered : String) (result : ProcessResult) (before after : Db) (e : String)
      (r : Result Error ProcessResult × Session) (x : ProcessResult)
      → Ends env offered (result, after) before r
      → r.0 ≡ ok x
      → has processed_key e after.processed ≡ true
      → has processed_key e r.1.durable.processed ≡ true
  processed_of_Ends offered result before after e (ok y, s) x ends done h = rw ends.1 h
  processed_of_Ends offered result before after e (err y, s) x ends done h = cc done

  -- From sound tables, for acceptable events, the second with a payload that the JSONB columns
  -- accept: once a call for an event has returned a result, a call for an event with the same ID,
  -- the same event or another, leaves the committed tables as the first call left them, and returns
  -- the duplicate's result unless a call of the driver fails.
  pub redelivery_changes_nothing :
      (first again : OrderEvent) (payload stored payload' stored' : String) (s : Session)
      (x : ProcessResult)
      → IsSound env s.durable
      → validate_event env first ≡ ok payload
      → IsStorable env payload stored
      → validate_event env again ≡ ok payload'
      → env.jsonb payload' ≡ some stored'
      → again.event_id ≡ first.event_id
      → (process_event_tx env first s).0 ≡ ok x
      → let s' = (process_event_tx env first s).1 in
        EndsAsDuplicate again s'.durable (process_event_tx env again s')
  redelivery_changes_nothing first again payload stored payload' stored' s x h valid storable valid'
        accepted' same done =
      process_event_tx_old again payload' stored' _
        (process_event_tx-IsSound env first payload stored s h valid storable) valid' accepted'
        (processed_of_Ends payload _ _ _ again.event_id (process_event_tx env first s) x
          (process_event_tx-Ends env first payload stored s (IsConsistent-IsSound env s.durable h)
            valid storable.accepted)
          done
          (process_model_processed env (env.clock s.calls) first stored s.durable again.event_id
            (rw (same, eq_refl))))
