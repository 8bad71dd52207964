-- ===== src/Repository/Lifecycle.antt =====
-- The stored status of every order against its history.
use text.Mathlib.TextPositions.{eq_refl}
use senior_backend_order_ing.Prelude.{
  ℕ, String, ◌≡◌, refl, ap, sym, ◌∙◌, subst, true, Option, none, some, List, [], ◌∷◌, inl, inr,
  Bool-cases, str_eq, eq_iff, if◌then◌else◌, arith,
}
use senior_backend_order_ing.Domain.{Status, OrderEvent, Classification}
use senior_backend_order_ing.Domain.Transitions.{Moves, Classifies, applied-iff-Moves}
use senior_backend_order_ing.Database.{Db, HistoryRow, PendingRow, Environment}
use senior_backend_order_ing.Database.Table.{All, All-trivial, find_by, find_by-update_by}
use senior_backend_order_ing.Database.Statements.{order_key, set_status, first_pending}
use senior_backend_order_ing.Database.Pending.{first_pending-All}
use senior_backend_order_ing.Repository.Statements.{found_status, event_of_row}
use senior_backend_order_ing.Repository.Model.{applied_db, status_of, process_model}
use senior_backend_order_ing.Repository.Induction.{
  Rounds, replay_pending-induction, recorded, process_model-cases,
}

abbrev pub before_status : Option Status → Status
before_status none = Status.unset
before_status (some s) = s

-- The rows of an order, the newest first, lead from no status to `current`: each goes from the
-- status where the one before it ended, by a move of the lifecycle.
abbrev pub LeadsTo : String → Option Status → List HistoryRow → Type 0
LeadsTo order_id current [] = current ≡ none
LeadsTo order_id current (r ∷ rows) =
    if str_eq r.order_id order_id
    then (current ≡ some r.to_status)
      × Moves (before_status r.from_status) r.to_status
      × LeadsTo order_id r.from_status rows
    else LeadsTo order_id current rows

-- The stored status of every order, if it has one, is where its history leads.
abbrev pub IsLifecycle : Db → Type 0
IsLifecycle db = (order_id : String) → LeadsTo order_id (status_of order_id db) db.history

module _ (env : Environment) (now : ℕ) where
  pub status_of-applied_db :
      (event : OrderEvent) (found : Option Status) (db : Db) (order_id : String)
      → status_of event.order_id db ≡ found
      → status_of order_id
          (applied_db env now event (found_status found).0 (found_status found).1 db)
        ≡ (if str_eq event.order_id order_id then some event.status else status_of order_id db)
  unfolding find_by
  status_of-applied_db event none db order_id e = ground arith
  status_of-applied_db event (some current) db order_id e = ground (
    arith,
    find_by-update_by order_key event.order_id order_id
        (set_status event.status (env.timestamptz event.timestamp) now) db.orders (λ o. refl),
    eq_iff event.order_id order_id,
  )

  status_at :
      (event : OrderEvent) (found : Option Status) (db : Db) (order_id : String)
      → IsLifecycle db
      → status_of event.order_id db ≡ found
      → str_eq event.order_id order_id ≡ true
      → LeadsTo order_id found db.history
  status_at event found db order_id h e same =
      subst (λ c. LeadsTo order_id c db.history)
        (ap (λ k. status_of k db) (sym ((eq_iff event.order_id order_id).0 same)) ∙ e) (h order_id)

  -- Applying a move of the lifecycle to an order extends its history by that move.
  pub applied_db-IsLifecycle :
      (event : OrderEvent) (found : Option Status) (db : Db)
      → IsLifecycle db
      → status_of event.order_id db ≡ found
      → Moves (found_status found).0 event.status
      → IsLifecycle (applied_db env now event (found_status found).0 (found_status found).1 db)
  applied_db-IsLifecycle event none db h e m order_id =
      rw (status_of-applied_db event none db order_id e)
        (elim (Bool-cases (str_eq event.order_id order_id)) [
          | inl same ↦ rw same (refl, m, status_at event none db order_id h e same)
          | inr other ↦ rw other (h order_id)
        ])
  applied_db-IsLifecycle event (some current) db h e m order_id =
      rw (status_of-applied_db event (some current) db order_id e)
        (elim (Bool-cases (str_eq event.order_id order_id)) [
          | inl same ↦ rw same (refl, m, status_at event (some current) db order_id h e same)
          | inr other ↦ rw other (h order_id)
        ])

  -- In the replay loop the variable `current` is the stored status of the order.
  abbrev InStep : String → Status → ℕ → Db → Type 0
  InStep order_id current count db = IsLifecycle db × (status_of order_id db ≡ some current)

  replay_applied-InStep :
      (order_id : String) (r : PendingRow) (current : Status) (db : Db)
      → first_pending env order_id db.pending ≡ some r
      → Classifies current r.status Classification.applied
      → IsLifecycle db
      → status_of order_id db ≡ some current
      → IsLifecycle (applied_db env now (event_of_row r) current true db)
        × (status_of order_id (applied_db env now (event_of_row r) current true db) ≡ some r.status)
  replay_applied-InStep order_id r current db selected c h e =
      let all : All (λ (x : PendingRow). Unit {0}) db.pending = All-trivial db.pending in
      let of_order =
        (first_pending-All env order_id (λ (x : PendingRow). Unit {0}) r db.pending all
          selected).1 in
      let e' : status_of r.order_id db ≡ some current = rw of_order e in
      (
        applied_db-IsLifecycle (event_of_row r) (some current) db h e'
            ((applied-iff-Moves current r.status).0 c),
        rw (status_of-applied_db (event_of_row r) (some current) db order_id e', of_order, eq_refl),
      )

  replay-InStep : (order_id : String) → Rounds env now order_id (InStep order_id)
  replay-InStep order_id = record {
    on_applied = λ r current count db selected c h.
        replay_applied-InStep order_id r current db selected c h.0 h.1;
    on_duplicate = λ r current count db selected h. h;
    on_invalid = λ r reason current count db selected h. h;
  }

  -- Processing an event keeps it so: the stored status of every order is where its history leads.
  pub process_model-IsLifecycle :
      (event : OrderEvent) (stored : String) (db : Db)
      → IsLifecycle db
      → IsLifecycle (process_model env now event stored db).1
  process_model-IsLifecycle event stored db h =
      process_model-cases env now event stored db (λ result after. IsLifecycle after)
        (record {
          on_old = λ old. h;
          on_applied = λ new c reason.
              (replay_pending-induction env now event.order_id (InStep event.order_id)
                (replay-InStep event.order_id) event.status _
                (
                  applied_db-IsLifecycle event (status_of event.order_id db)
                      (recorded env now event db) h refl ((applied-iff-Moves _ event.status).0 c),
                  status_of-applied_db event (status_of event.order_id db)
                        (recorded env now event db) event.order_id refl
                      ∙ rw eq_refl,
                )).1.0;
          on_duplicate_status = λ new c reason. h;
          on_out_of_order = λ new c reason. h;
          on_invalid = λ new c reason. h;
        })
