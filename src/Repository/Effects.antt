-- ===== src/Repository/Effects.antt =====
-- What one event changes: the number of transitions, and nothing of any other order.
use native.Mathlib.Nat.{add_assoc}
use senior_backend_order_ing.Prelude.{
  ℕ, ◌+◌, String, ◌≡◌, refl, ◌∙◌, Bool, true, false, List, [], ◌∷◌, str_eq, if◌then◌else◌, length,
  arith,
}
use senior_backend_order_ing.Domain.{Status, OrderEvent}
use senior_backend_order_ing.Database.{Db, HistoryRow, PendingRow, Environment}
use senior_backend_order_ing.Database.Table.{All-trivial, find_by, find_by-update_by}
use senior_backend_order_ing.Database.Statements.{order_key, set_status}
use senior_backend_order_ing.Database.Pending.{first_pending-All}
use senior_backend_order_ing.Repository.Statements.{event_of_row}
use senior_backend_order_ing.Repository.Model.{applied_db, status_of, process_model}
use senior_backend_order_ing.Repository.Induction.{
  Rounds, replay_pending-induction, recorded, process_model-cases,
}

-- The history of one order.
abbrev pub order_history : String → List HistoryRow → List HistoryRow
order_history order_id [] = []
order_history order_id (r ∷ rows) =
    let rest = order_history order_id rows in if str_eq r.order_id order_id then r ∷ rest else rest

module _ (env : Environment) (now : ℕ) where
  length-applied_db :
      (event : OrderEvent) (current : Status) (order_exists : Bool) (db : Db)
      → length (applied_db env now event current order_exists db).history ≡ length db.history + 1
  length-applied_db event current true db = omega arith
  length-applied_db event current false db = omega arith

  replay_counts :
      (order_id : String) (base : ℕ)
      → Rounds env now order_id (λ current count db. length db.history ≡ base + count)
  replay_counts order_id base = record {
    on_applied = λ r current count db selected c h. omega arith;
    on_duplicate = λ r current count db selected h. h;
    on_invalid = λ r reason current count db selected h. h;
  }

  -- The result counts what was applied: the history grows by one row for the event, if it is
  -- reported as applied, and one for each pending event that is reported as replayed, and by
  -- nothing otherwise.
  pub process_model_counts :
      (event : OrderEvent) (stored : String) (db : Db)
      → let (result, after) = process_model env now event stored db in
        length after.history
        ≡ length db.history + (if result.applied then 1 + result.replayed_pending else 0)
  process_model_counts event stored db =
      process_model-cases env now event stored db
        (λ result after.
          length after.history
          ≡ length db.history + (if result.applied then 1 + result.replayed_pending else 0))
        (record {
          on_old = λ old. omega arith;
          on_applied = λ new c reason.
              (replay_pending-induction env now event.order_id _
                (replay_counts event.order_id (length db.history + 1)) event.status _
                (length-applied_db event _ _ (recorded env now event db) ∙ omega arith)).1
              ∙ add_assoc (length db.history) 1 _;
          on_duplicate_status = λ new c reason. omega arith;
          on_out_of_order = λ new c reason. omega arith;
          on_invalid = λ new c reason. omega arith;
        })

  module _ (other : String) where
    -- Another order is as it was.
    abbrev IsUntouched : Db → Db → Type 0
    IsUntouched before db =
        (status_of other db ≡ status_of other before)
        × (order_history other db.history ≡ order_history other before.history)

    applied_db-IsUntouched :
        (event : OrderEvent) (current : Status) (order_exists : Bool) (before db : Db)
        → str_eq event.order_id other ≡ false
        → IsUntouched before db
        → IsUntouched before (applied_db env now event current order_exists db)
    unfolding find_by
    applied_db-IsUntouched event current true before db ne h = ground (
      arith,
      find_by-update_by order_key event.order_id other
          (set_status event.status (env.timestamptz event.timestamp) now) db.orders (λ o. refl),
    )
    applied_db-IsUntouched event current false before db ne h = ground arith

    replay-IsUntouched :
        (order_id : String) (before : Db)
        → str_eq order_id other ≡ false
        → Rounds env now order_id (λ current count db. IsUntouched before db)
    replay-IsUntouched order_id before ne = record {
      on_applied = λ r current count db selected c h.
          let of_order =
            (first_pending-All env order_id (λ (x : PendingRow). Unit {0}) r db.pending
              (All-trivial db.pending) selected).1 in
          applied_db-IsUntouched (event_of_row r) current true before db (rw of_order ne) h;
      on_duplicate = λ r current count db selected h. h;
      on_invalid = λ r reason current count db selected h. h;
    }

    -- An event changes neither the status nor the history of any other order.
    pub process_model-IsUntouched :
        (event : OrderEvent) (stored : String) (db : Db)
        → str_eq event.order_id other ≡ false
        → IsUntouched db (process_model env now event stored db).1
    process_model-IsUntouched event stored db ne =
        process_model-cases env now event stored db (λ result after. IsUntouched db after)
          (record {
            on_old = λ old. (refl, refl);
            on_applied = λ new c reason.
                (replay_pending-induction env now event.order_id _
                  (replay-IsUntouched event.order_id db ne) event.status _
                  (applied_db-IsUntouched event _ _ db (recorded env now event db) ne
                    (refl, refl))).1;
            on_duplicate_status = λ new c reason. (refl, refl);
            on_out_of_order = λ new c reason. (refl, refl);
            on_invalid = λ new c reason. (refl, refl);
          })
