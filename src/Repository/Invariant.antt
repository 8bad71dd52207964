-- ===== src/Repository/Invariant.antt =====
-- The invariant of the tables between transactions, and that every call of ProcessEventTx keeps it,
-- whatever the driver does.
use senior_backend_order_ing.Prelude.{
  ℕ, String, ◌≡◌, refl, Bool, true, false, Option, none, some, inl, inr, Bool-cases, Result, ok,
  err,
}
use senior_backend_order_ing.Domain.{Status, OrderEvent, Classification, is_known}
use senior_backend_order_ing.Database.{Outcome, Db, OrderRow, Environment, empty_db}
use senior_backend_order_ing.Database.Table.{
  All, has, find_by, All-delete_by, All-update_by, find_by_of_not-has,
}
use senior_backend_order_ing.Database.Statements.{
  processed_key, history_key, pending_key, order_key,
}
use senior_backend_order_ing.Database.Pending.{first_pending-All}
use senior_backend_order_ing.Repository.Transaction.{Error, Session}
use senior_backend_order_ing.Repository.Validation.{validate_event, validate_event-IsAcceptable}
use senior_backend_order_ing.Repository.Statements.{event_of_row}
use senior_backend_order_ing.Repository.Process.{ProcessResult, process_event_tx}
use senior_backend_order_ing.Repository.Model.{applied_db, process_model}
use senior_backend_order_ing.Repository.Induction.{
  Rounds, replay_pending-induction, recorded, process_model-cases,
}
use senior_backend_order_ing.Repository.Refinement.Replay.{CanReplay}
use senior_backend_order_ing.Repository.Refinement.Process.{Stores, IsConsistent}
use senior_backend_order_ing.Repository.Refinement.Commit.{Ends, process_event_tx-Ends}
use senior_backend_order_ing.Repository.Lifecycle.{IsLifecycle, process_model-IsLifecycle}
use senior_backend_order_ing.Repository.Accounting.{Accounts, IsAccounted, outcome_of}
use senior_backend_order_ing.Repository.Accounting.Keeps.{process_model-IsAccounted}

abbrev pub HasKnownStatus : OrderRow → Type 0
HasKnownStatus r = is_known r.current_status ≡ true

-- The stored statuses are the four known ones, deferred events can be replayed, every processed
-- event is where its outcome says, and every order's status is where its history leads.
pub record IsSound (env : Environment) (db : Db) : Type 0 where
  pub orders_known : All HasKnownStatus db.orders
  pub pending_ready : All (CanReplay env) db.pending
  pub accounted : IsAccounted db
  pub lifecycle : IsLifecycle db

-- An event with no outcome is nowhere, and a pending one is not in the history.
nowhere_of_Accounts :
    (o : Option Outcome) (h p d : Bool)
    → Accounts o h p d
    → (o ≡ none → (h ≡ false) × (p ≡ false)) × (p ≡ true → h ≡ false)
nowhere_of_Accounts none h p d a = (λ e. (a.0, a.1), λ e. a.0)
nowhere_of_Accounts (some Outcome.received) h p d a = absurd a
nowhere_of_Accounts (some (Outcome.classified Classification.applied)) h p d a =
    (λ e. cc, λ e. cc (a.1))
nowhere_of_Accounts (some (Outcome.classified Classification.duplicate_status)) h p d a =
    (λ e. cc, λ e. a.0)
nowhere_of_Accounts (some (Outcome.classified Classification.out_of_order)) h p d a =
    (λ e. cc, λ e. a.0)
nowhere_of_Accounts (some (Outcome.classified Classification.invalid_transition)) h p d a =
    (λ e. cc, λ e. a.0)
nowhere_of_Accounts (some (Outcome.classified Classification.duplicate_event)) h p d a = absurd a

module _ (db : Db) (h : IsAccounted db) (e : String) where
  nowhere_of_unprocessed :
      has processed_key e db.processed ≡ false
      → (has history_key e db.history ≡ false) × (has pending_key e db.pending ≡ false)
  nowhere_of_unprocessed new =
      (nowhere_of_Accounts (outcome_of e db) _ _ _ (h e)).0 (
        let absent = find_by_of_not-has processed_key e db.processed new in rw (absent, outcome_of))

  apart_of_IsAccounted : has pending_key e db.pending ≡ true → has history_key e db.history ≡ false
  apart_of_IsAccounted = (nowhere_of_Accounts (outcome_of e db) _ _ _ (h e)).1

-- The invariant contains what the refinement of ProcessEventTx rests on.
pub IsConsistent-IsSound : (env : Environment) (db : Db) → IsSound env db → IsConsistent env db
IsConsistent-IsSound env db h = record {
  orders_known = h.orders_known;
  history_processed = λ e stored. elim (Bool-cases (has processed_key e db.processed)) [
    | inl old ↦ old
    | inr new ↦ cc (stored, (nowhere_of_unprocessed db h.accounted e new).0)
  ];
  pending_processed = λ e stored. elim (Bool-cases (has processed_key e db.processed)) [
    | inl old ↦ old
    | inr new ↦ cc (stored, (nowhere_of_unprocessed db h.accounted e new).1)
  ];
  pending_apart = apart_of_IsAccounted db h.accounted;
  pending_ready = h.pending_ready;
}

module _ (env : Environment) (now : ℕ) where
  -- In the replay loop the stored statuses stay known and the deferred events stay replayable.
  abbrev AreKnown : Db → Type 0
  AreKnown db = All HasKnownStatus db.orders × All (CanReplay env) db.pending

  applied_db-AreKnown :
      (event : OrderEvent) (current : Status) (order_exists : Bool) (db : Db)
      → is_known event.status ≡ true
      → AreKnown db
      → AreKnown (applied_db env now event current order_exists db)
  applied_db-AreKnown event current true db known h =
      (All-update_by order_key HasKnownStatus event.order_id _ db.orders (λ r. known) h.0, h.1)
  applied_db-AreKnown event current false db known h = ((known, h.0), h.1)

  replay-AreKnown : (order_id : String) → Rounds env now order_id (λ current count db. AreKnown db)
  replay-AreKnown order_id = record {
    on_applied = λ r current count db selected c h.
        let known =
          (first_pending-All env order_id (CanReplay env) r db.pending h.1 selected).0.0 in
        (
          (applied_db-AreKnown (event_of_row r) current true db known h).0,
          All-delete_by pending_key (CanReplay env) r.event_id db.pending h.1,
        );
    on_duplicate = λ r current count db selected h.
        (h.0, All-delete_by pending_key (CanReplay env) r.event_id db.pending h.1);
    on_invalid = λ r reason current count db selected h.
        (h.0, All-delete_by pending_key (CanReplay env) r.event_id db.pending h.1);
  }

  process_model-AreKnown :
      (event : OrderEvent) (stored : String) (db : Db)
      → is_known event.status ≡ true
      → env.jsonb stored ≡ some stored
      → AreKnown db
      → AreKnown (process_model env now event stored db).1
  process_model-AreKnown event stored db known json h =
      process_model-cases env now event stored db (λ result after. AreKnown after)
        (record {
          on_old = λ old. h;
          on_applied = λ new c reason.
              (replay_pending-induction env now event.order_id _ (replay-AreKnown event.order_id)
                event.status _
                (applied_db-AreKnown event _ _ (recorded env now event db) known h)).1;
          on_duplicate_status = λ new c reason. h;
          on_out_of_order = λ new c reason. (h.0, ((known, json), h.1));
          on_invalid = λ new c reason. h;
        })

  -- The specification keeps the invariant.
  pub process_model-IsSound :
      (event : OrderEvent) (stored : String) (db : Db)
      → is_known event.status ≡ true
      → env.jsonb stored ≡ some stored
      → IsSound env db
      → IsSound env (process_model env now event stored db).1
  process_model-IsSound event stored db known json h =
      let (orders_known, pending_ready) =
        process_model-AreKnown event stored db known json (h.orders_known, h.pending_ready) in
      record {
        orders_known = orders_known;
        pending_ready = pending_ready;
        accounted = process_model-IsAccounted env now event stored db h.accounted;
        lifecycle = process_model-IsLifecycle env now event stored db h.lifecycle;
      }

-- A JSONB column gives the payload back as `stored`, if it does not refuse it, and takes `stored`
-- unchanged.
pub record IsStorable (env : Environment) (payload stored : String) : Type 0 where
  pub accepted : Stores env payload stored
  pub stable : env.jsonb stored ≡ some stored

module _ (env : Environment) where
  IsSound-of_Ends :
      (offered : String) (result : ProcessResult) (before after : Db)
      (r : Result Error ProcessResult × Session)
      → IsSound env before
      → IsSound env after
      → Ends env offered (result, after) before r
      → IsSound env r.1.durable
  IsSound-of_Ends offered result before after (ok x, s) hb ha e = rw e.1 ha
  IsSound-of_Ends offered result before after (err x, s) hb ha e = elim e.0 [
    | inl kept ↦ rw kept hb
    | inr lost ↦ rw lost.0 ha
  ]

  -- A call for an acceptable event, from committed tables that satisfy the invariant, leaves
  -- committed tables that satisfy it: whether the call returns a result or an error, whichever
  -- calls of the driver fail, and whether or not the JSONB columns refuse the payload. What they
  -- keep of it, they take back unchanged.
  pub process_event_tx-IsSound :
      (event : OrderEvent) (payload stored : String) (s : Session)
      → IsSound env s.durable
      → validate_event env event ≡ ok payload
      → IsStorable env payload stored
      → IsSound env (process_event_tx env event s).1.durable
  process_event_tx-IsSound event payload stored s h valid storable =
      let (result, after) = process_model env (env.clock s.calls) event stored s.durable in
      IsSound-of_Ends payload result s.durable after (process_event_tx env event s) h
        (process_model-IsSound env (env.clock s.calls) event stored s.durable
          (validate_event-IsAcceptable env event payload valid).has_status storable.stable h)
        (process_event_tx-Ends env event payload stored s (IsConsistent-IsSound env s.durable h)
          valid storable.accepted)

-- The empty tables satisfy the invariant.
pub empty_db-IsSound : (env : Environment) → IsSound env empty_db
unfolding has find_by
empty_db-IsSound env = record {
  orders_known = tt;
  pending_ready = tt;
  accounted = λ e. (refl, refl, refl);
  lifecycle = λ o. refl;
}
