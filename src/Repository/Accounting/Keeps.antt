-- ===== src/Repository/Accounting/Keeps.antt =====
-- Processing an event keeps every event accounted for.
use senior_backend_order_ing.Prelude.{
  ℕ, String, ◌≡◌, refl, Bool, true, false, Option, none, some, str_eq, eq_iff, if◌then◌else◌, arith,
}
use senior_backend_order_ing.Domain.{Status, OrderEvent, Classification}
use senior_backend_order_ing.Database.{Outcome, Db, PendingRow, Environment}
use senior_backend_order_ing.Database.Table.{
  has, find_by, delete_by, has-delete_by, find_by-update_by, find_by_of_not-has,
}
use senior_backend_order_ing.Database.Statements.{
  processed_key, history_key, pending_key, set_outcome, first_pending,
}
use senior_backend_order_ing.Database.Pending.{has-first_pending}
use senior_backend_order_ing.Repository.Model.{applied_db, outcome_db, process_model}
use senior_backend_order_ing.Repository.Induction.{
  Rounds, replay_pending-induction, recorded, process_model-cases,
}
use senior_backend_order_ing.Repository.Accounting.{
  dead_letter_key, outcome_of, Accounts, IsAccounted,
}

-- The effect of an outcome on one event: the same one, or another.
abbrev reclassified : Bool → Classification → Option Outcome → Option Outcome
reclassified same c o =
    if same then elim o [ none ↦ none | some _ ↦ some (Outcome.classified c) ] else o

outcome_of-outcome_db :
    (env : Environment) (now : ℕ) (event_id e : String) (c : Classification) (db : Db)
    → outcome_of e (outcome_db env now event_id c db)
      ≡ reclassified (str_eq event_id e) c (outcome_of e db)
outcome_of-outcome_db env now event_id e c db = ground (
  arith,
  find_by-update_by processed_key event_id e (set_outcome (Outcome.classified c)) db.processed
      (λ r. refl),
)

-- What is pending can be put where a new outcome says.
from_pending :
    (same : Bool) (o : Option Outcome) (h p d : Bool)
    → Accounts o h p d
    → (same ≡ true → p ≡ true)
    → Accounts
        (reclassified same Classification.applied o)
        (if same then true else h)
        (if same then false else p)
        d
      × Accounts
          (reclassified same Classification.duplicate_status o)
          h
          (if same then false else p)
          d
      × Accounts
          (reclassified same Classification.invalid_transition o)
          h
          (if same then false else p)
          (if same then true else d)
from_pending false o h p d a stored = (a, a, a)
from_pending true none h p d a stored = cc (stored refl, a.1)
from_pending true (some Outcome.received) h p d a stored = absurd a
from_pending true (some (Outcome.classified Classification.applied)) h p d a stored =
    cc (stored refl, a.1)
from_pending true (some (Outcome.classified Classification.duplicate_status)) h p d a stored =
    cc (stored refl, a.1)
from_pending true (some (Outcome.classified Classification.out_of_order)) h p d a stored =
    ((refl, refl, a.2), (a.0, refl, a.2), (a.0, refl, refl))
from_pending true (some (Outcome.classified Classification.invalid_transition)) h p d a stored =
    cc (stored refl, a.1)
from_pending true (some (Outcome.classified Classification.duplicate_event)) h p d a stored =
    absurd a

-- What is not processed can be put where its outcome says.
from_new :
    (same : Bool) (o : Option Outcome) (h p d : Bool)
    → Accounts o h p d
    → (same ≡ true → o ≡ none)
    → Accounts
        (if same then some (Outcome.classified Classification.applied) else o)
        (if same then true else h)
        p
        d
      × Accounts
          (if same then some (Outcome.classified Classification.duplicate_status) else o)
          h
          p
          d
      × Accounts
          (if same then some (Outcome.classified Classification.out_of_order) else o)
          h
          (if same then true else p)
          d
      × Accounts
          (if same then some (Outcome.classified Classification.invalid_transition) else o)
          h
          p
          (if same then true else d)
from_new false o h p d a new = (a, a, a, a)
from_new true none h p d a new = ((refl, a.1, a.2), a, (a.0, refl, a.2), (a.0, a.1, refl))
from_new true (some o) h p d a new = cc (new refl)

module _ (env : Environment) (now : ℕ) where
  module _ (order_id : String) (r : PendingRow) (db : Db)
      (selected : first_pending env order_id db.pending ≡ some r) (h : IsAccounted db)
      (e : String) where
    replayed-Accounts :
        let same = str_eq r.event_id e in
        let o = outcome_of e db in
        let dead = has dead_letter_key e db.dead_letters in
        let in_history = has history_key e db.history in
        let pending = has pending_key e (delete_by pending_key r.event_id db.pending) in
        Accounts
          (reclassified same Classification.applied o)
          (if same then true else in_history)
          pending
          dead
        × Accounts (reclassified same Classification.duplicate_status o) in_history pending dead
        × Accounts
            (reclassified same Classification.invalid_transition o)
            in_history
            pending
            (if same then true else dead)
    replayed-Accounts = rw (has-delete_by pending_key r.event_id e db.pending) (
        from_pending (str_eq r.event_id e) _ _ _ _ (h e) (λ same.
          ground
            (arith, eq_iff r.event_id e, has-first_pending env order_id r db.pending selected)))

  replay-IsAccounted :
      (order_id : String) → Rounds env now order_id (λ current count db. IsAccounted db)
  unfolding has
  replay-IsAccounted order_id = record {
    on_applied = λ r current count db selected c h e.
        rw (outcome_of-outcome_db env now r.event_id e Classification.applied db)
          (replayed-Accounts order_id r db selected h e).0;
    on_duplicate = λ r current count db selected h e.
        rw (outcome_of-outcome_db env now r.event_id e Classification.duplicate_status db)
          (replayed-Accounts order_id r db selected h e).1;
    on_invalid = λ r reason current count db selected h e.
        rw (outcome_of-outcome_db env now r.event_id e Classification.invalid_transition db)
          (replayed-Accounts order_id r db selected h e).2;
  }

  outcome_of-recorded :
      (event : OrderEvent) (e : String) (c : Classification) (db : Db)
      → outcome_of e (outcome_db env now event.event_id c (recorded env now event db))
        ≡ (if str_eq event.event_id e then some (Outcome.classified c) else outcome_of e db)
  unfolding find_by
  outcome_of-recorded event e c db = ground (
    arith,
    outcome_of-outcome_db env now event.event_id e c (recorded env now event db),
    eq_iff event.event_id e,
  )

  module _ (event : OrderEvent) (db : Db)
      (new : has processed_key event.event_id db.processed ≡ false) (h : IsAccounted db) where
    recorded-Accounts :
        (e : String)
        → let same = str_eq event.event_id e in
          let o = outcome_of e db in
          let dead = has dead_letter_key e db.dead_letters in
          let in_history = has history_key e db.history in
          let pending = has pending_key e db.pending in
          Accounts
            (if same then some (Outcome.classified Classification.applied) else o)
            (if same then true else in_history)
            pending
            dead
          × Accounts
              (if same then some (Outcome.classified Classification.duplicate_status) else o)
              in_history
              pending
              dead
          × Accounts
              (if same then some (Outcome.classified Classification.out_of_order) else o)
              in_history
              (if same then true else pending)
              dead
          × Accounts
              (if same then some (Outcome.classified Classification.invalid_transition) else o)
              in_history
              pending
              (if same then true else dead)
    recorded-Accounts e = from_new (str_eq event.event_id e) _ _ _ _ (h e) (λ same. ground (
      arith,
      eq_iff event.event_id e,
      find_by_of_not-has processed_key event.event_id db.processed new,
    ))

    applied-IsAccounted :
        (current : Status) (order_exists : Bool)
        → IsAccounted (
            outcome_db env now event.event_id Classification.applied
              (applied_db env now event current order_exists (recorded env now event db)))
    unfolding has
    applied-IsAccounted current true e =
        rw (outcome_of-recorded event e Classification.applied db) (recorded-Accounts e).0
    applied-IsAccounted current false e =
        rw (outcome_of-recorded event e Classification.applied db) (recorded-Accounts e).0

  -- Processing an event keeps every event accounted for.
  pub process_model-IsAccounted :
      (event : OrderEvent) (stored : String) (db : Db)
      → IsAccounted db
      → IsAccounted (process_model env now event stored db).1
  unfolding has
  process_model-IsAccounted event stored db h =
      process_model-cases env now event stored db (λ result after. IsAccounted after)
        (record {
          on_old = λ old. h;
          on_applied = λ new c reason.
              (replay_pending-induction env now event.order_id _ (replay-IsAccounted event.order_id)
                event.status _ (applied-IsAccounted event db new h _ _)).1;
          on_duplicate_status = λ new c reason e.
              rw (outcome_of-recorded event e Classification.duplicate_status db)
                (recorded-Accounts event db new h e).1;
          on_out_of_order = λ new c reason e.
              rw (outcome_of-recorded event e Classification.out_of_order db)
                (recorded-Accounts event db new h e).2;
          on_invalid = λ new c reason e.
              rw (outcome_of-recorded event e Classification.invalid_transition db)
                (recorded-Accounts event db new h e).3;
        })
