-- ===== src/Repository/Refinement/Steps.antt =====
-- The helpers of order_repository.go that send statements meet the specification.
use senior_backend_order_ing.Prelude.{none, ℕ, String, ◌≡◌, refl, true, false, some, ◌∷◌}
use senior_backend_order_ing.Domain.{Status, OrderEvent, Classification, is_known}
use senior_backend_order_ing.Database.{Outcome, Db, Environment}
use senior_backend_order_ing.Database.Table.{has, update_by, has-update_by}
use text.Mathlib.TextPositions.{eq_refl}
use senior_backend_order_ing.Database.Statements.{
  order_key, processed_key, history_key, pending_key, first_pending, set_status, lock_statement,
  insert_processed_statement, select_status_statement, update_order_statement,
  insert_order_statement, insert_history_statement, insert_pending_statement,
  insert_dead_letter_statement, update_outcome_statement, delete_pending_statement,
  select_pending_statement,
}
use senior_backend_order_ing.Repository.Transaction.{Session}
use senior_backend_order_ing.Repository.Statements.{
  acquire_lock, insert_processed_event, load_current_status, write_order, apply_event,
  insert_pending_event, insert_dead_letter_event, update_outcome, load_next_pending, delete_pending,
  found_status, found_event,
}
use senior_backend_order_ing.Repository.Model.{
  received_row, order_row, applied_db, outcome_db, dead_db, pending_db, unpend_db, status_of,
}
use senior_backend_order_ing.Repository.Refinement.{
  IsAt, Meets, exec-Meets, exec-Meets_refused, pure-Meets, continue-Meets,
}

module _ (env : Environment) (offered : String) (durable : Db) (now : ℕ) {db : Db} {s : Session}
    (at : IsAt env offered durable now db s) where
  pub acquire_lock-Meets :
      (order_id : String) → Meets env offered durable now tt db (acquire_lock env order_id s)
  unfolding acquire_lock lock_statement
  acquire_lock-Meets order_id = exec-Meets env offered durable now _ _ at refl

  pub insert_processed_event-Meets_new :
      (event : OrderEvent)
      → is_known event.status ≡ true
      → has processed_key event.event_id db.processed ≡ false
      → Meets env offered durable now true
          (record db { processed = received_row env now event ∷ db.processed })
          (insert_processed_event env event s)
  unfolding insert_processed_event insert_processed_statement
  insert_processed_event-Meets_new event known fresh =
      continue-Meets env offered durable now _ _
        (exec-Meets env offered durable now {a = 1} _ _ at (rw (known, fresh)))
        (λ t at'. pure-Meets env offered durable now true at')

  pub insert_processed_event-Meets_old :
      (event : OrderEvent)
      → is_known event.status ≡ true
      → has processed_key event.event_id db.processed ≡ true
      → Meets env offered durable now false db (insert_processed_event env event s)
  unfolding insert_processed_event insert_processed_statement
  insert_processed_event-Meets_old event known old =
      continue-Meets env offered durable now _ _
        (exec-Meets env offered durable now {a = 0} _ _ at (rw (known, old)))
        (λ t at'. pure-Meets env offered durable now false at')

  pub load_current_status-Meets :
      (order_id : String)
      → Meets env offered durable now
          (found_status (status_of order_id db))
          db
          (load_current_status env order_id s)
  unfolding load_current_status select_status_statement
  load_current_status-Meets order_id =
      continue-Meets env offered durable now _ _ (exec-Meets env offered durable now _ _ at refl)
        (λ t at'. pure-Meets env offered durable now _ at')

  pub update_outcome-Meets :
      (event_id : String) (c : Classification)
      → Meets env offered durable now tt
          (outcome_db env now event_id c db)
          (update_outcome env event_id (Outcome.classified c) s)
  unfolding update_outcome update_outcome_statement
  update_outcome-Meets event_id c = exec-Meets env offered durable now _ _ at refl

  pub delete_pending-Meets :
      (event_id : String)
      → Meets env offered durable now tt
          (unpend_db env now event_id db)
          (delete_pending env event_id s)
  unfolding delete_pending delete_pending_statement
  delete_pending-Meets event_id = exec-Meets env offered durable now _ _ at refl

  pub load_next_pending-Meets :
      (order_id : String)
      → Meets env offered durable now
          (found_event (first_pending env order_id db.pending))
          db
          (load_next_pending env order_id s)
  unfolding load_next_pending select_pending_statement
  load_next_pending-Meets order_id =
      continue-Meets env offered durable now _ _ (exec-Meets env offered durable now _ _ at refl)
        (λ t at'. pure-Meets env offered durable now _ at')

  pub insert_pending_event-Meets :
      (event : OrderEvent) (reason payload : String) {stored : String}
      → is_known event.status ≡ true
      → env.jsonb payload ≡ some stored
      → has pending_key event.event_id db.pending ≡ false
      → Meets env offered durable now tt
          (pending_db env now event reason stored db)
          (insert_pending_event env event reason payload s)
  unfolding insert_pending_event insert_pending_statement
  insert_pending_event-Meets event reason payload known json fresh =
      exec-Meets env offered durable now _ _ at (rw (json, known, fresh))

  pub insert_dead_letter_event-Meets :
      (event : OrderEvent) (reason payload : String) {stored : String}
      → is_known event.status ≡ true
      → env.jsonb payload ≡ some stored
      → Meets env offered durable now tt
          (dead_db env now event reason stored db)
          (insert_dead_letter_event env event reason payload s)
  unfolding insert_dead_letter_event insert_dead_letter_statement
  insert_dead_letter_event-Meets event reason payload known json =
      exec-Meets env offered durable now _ _ at (rw (json, known))

  -- With a payload that the JSONB columns refuse, the two inserts of a payload are excused.
  pub insert_pending_event-Meets_refused :
      (event : OrderEvent) (reason : String) {db' : Db}
      → env.jsonb offered ≡ none
      → Meets env offered durable now tt db' (insert_pending_event env event reason offered s)
  unfolding insert_pending_event
  insert_pending_event-Meets_refused event reason refused =
      exec-Meets_refused env offered durable now _ _ at refused (rw refused refl)

  pub insert_dead_letter_event-Meets_refused :
      (event : OrderEvent) (reason : String) {db' : Db}
      → env.jsonb offered ≡ none
      → Meets env offered durable now tt db' (insert_dead_letter_event env event reason offered s)
  unfolding insert_dead_letter_event
  insert_dead_letter_event-Meets_refused event reason refused =
      exec-Meets_refused env offered durable now _ _ at refused (rw refused refl)

  write_order-Meets_new :
      (event : OrderEvent)
      → is_known event.status ≡ true
      → has order_key event.order_id db.orders ≡ false
      → Meets env offered durable now tt
          (record db { orders = order_row env now event ∷ db.orders })
          (write_order env event false s)
  unfolding write_order insert_order_statement
  write_order-Meets_new event known no_order =
      exec-Meets env offered durable now _ _ at (rw (at.now_kept, known, no_order))

  write_order-Meets_old :
      (event : OrderEvent)
      → is_known event.status ≡ true
      → Meets env offered durable now tt
          (record db {
            orders =
                update_by order_key event.order_id
                  (set_status event.status (env.timestamptz event.timestamp) now)
                  db.orders;
          })
          (write_order env event true s)
  unfolding write_order update_order_statement
  write_order-Meets_old event known =
      exec-Meets env offered durable now _ _ at (rw (at.now_kept, known))

  pub apply_event-Meets_new :
      (event : OrderEvent) (current : Status)
      → is_known event.status ≡ true
      → has history_key event.event_id db.history ≡ false
      → has order_key event.order_id db.orders ≡ false
      → Meets env offered durable now tt
          (applied_db env now event current false db)
          (apply_event env event current false s)
  unfolding apply_event insert_history_statement has
  apply_event-Meets_new event current known fresh no_order =
      continue-Meets env offered durable now _ _ (write_order-Meets_new event known no_order)
        (λ t at'. exec-Meets env offered durable now _ _ at' (rw (known, fresh, eq_refl)))

  pub apply_event-Meets_old :
      (event : OrderEvent) (current : Status)
      → is_known event.status ≡ true
      → is_known current ≡ true
      → has history_key event.event_id db.history ≡ false
      → has order_key event.order_id db.orders ≡ true
      → Meets env offered durable now tt
          (applied_db env now event current true db)
          (apply_event env event current true s)
  unfolding apply_event insert_history_statement
  apply_event-Meets_old event current known was_known fresh an_order =
      let orders_kept =
        has-update_by order_key event.order_id event.order_id
          (set_status event.status (env.timestamptz event.timestamp) now) db.orders (λ r. refl) in
      continue-Meets env offered durable now _ _ (write_order-Meets_old event known) (λ t at'.
        exec-Meets env offered durable now _ _ at'
          (rw (known, was_known, fresh, orders_kept, an_order)))
