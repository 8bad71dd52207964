-- ===== src/Repository/Statements.antt =====
-- The helpers of order_repository.go that send one statement each, and applyEvent.
use senior_backend_order_ing.Prelude.{
  String, Bool, true, false, Option, none, some, err, ◌==◌, if◌then◌else◌,
}
use senior_backend_order_ing.Domain.{Status, OrderEvent}
use senior_backend_order_ing.Database.{Outcome, Cause, PendingRow, Environment, Statement}
use senior_backend_order_ing.Database.Statements.{
  lock_statement, insert_processed_statement, select_status_statement, update_order_statement,
  insert_order_statement, insert_history_statement, insert_pending_statement,
  insert_dead_letter_statement, update_outcome_statement, delete_pending_statement,
  select_pending_statement,
}
use senior_backend_order_ing.Repository.Transaction.{Operation, Tx, exec, pure, ◌>>=◌, ◌>>◌}

-- A JSONB column parses its input before the row is stored.
abbrev pub with_json : {A : Type 0} → Option String → (String → Statement A) → Statement A
with_json none statement db = err Cause.invalid_json
with_json (some stored) statement db = statement stored db

unfoldable pub acquire_lock : Environment → String → Tx (Unit {0})
acquire_lock env order_id = exec env (Operation.acquire_lock order_id) lock_statement

-- insertProcessedEvent: `tag.RowsAffected() == 1`
unfoldable pub insert_processed_event : Environment → OrderEvent → Tx Bool
insert_processed_event env event = do
  affected ← exec env (Operation.insert_processed event.event_id) (
      insert_processed_statement (record {
        event_id = event.event_id;
        order_id = event.order_id;
        status = event.status;
        event_timestamp = env.timestamptz event.timestamp;
        outcome = Outcome.received;
      }))
  pure (affected == 1)

abbrev pub found_status : Option Status → Status × Bool
found_status none = (Status.unset, false)
found_status (some s) = (s, true)

unfoldable pub load_current_status : Environment → String → Tx (Status × Bool)
load_current_status env order_id = do
  row ← exec env (Operation.load_status order_id) (select_status_statement order_id)
  pure (found_status row)

unfoldable pub write_order : Environment → OrderEvent → Bool → Tx (Unit {0})
write_order env event true s =
    exec env (Operation.update_order event.order_id)
      (update_order_statement event.order_id event.status (env.timestamptz event.timestamp) s.now) s
write_order env event false s =
    exec env (Operation.insert_order event.order_id)
      (insert_order_statement (record {
        order_id = event.order_id;
        current_status = event.status;
        created_at = s.now;
        updated_at = s.now;
        last_event_timestamp = env.timestamptz event.timestamp;
      }))
      s

unfoldable pub apply_event : Environment → OrderEvent → Status → Bool → Tx (Unit {0})
unfolding write_order
apply_event env event current order_exists = do
  write_order env event order_exists
  exec env (Operation.insert_history event.event_id) (
      insert_history_statement (record {
        event_id = event.event_id;
        order_id = event.order_id;
        from_status = if order_exists then some current else none;
        to_status = event.status;
        event_timestamp = env.timestamptz event.timestamp;
      }))

unfoldable pub insert_pending_event : Environment → OrderEvent → String → String → Tx (Unit {0})
insert_pending_event env event reason payload = exec env (Operation.insert_pending event.event_id) (
    with_json (env.jsonb payload) (λ stored. insert_pending_statement (record {
      event_id = event.event_id;
      order_id = event.order_id;
      status = event.status;
      event_timestamp = env.timestamptz event.timestamp;
      reason = reason;
      payload = stored;
    })))

unfoldable pub insert_dead_letter_event : Environment → OrderEvent → String → String → Tx (Unit {0})
insert_dead_letter_event env event reason payload =
    exec env (Operation.insert_dead_letter event.event_id) (
      with_json (env.jsonb payload) (λ stored. insert_dead_letter_statement (record {
        event_id = event.event_id;
        order_id = event.order_id;
        status = event.status;
        reason = reason;
        payload = stored;
      })))

unfoldable pub update_outcome : Environment → String → Outcome → Tx (Unit {0})
update_outcome env event_id outcome =
    exec env (Operation.update_outcome event_id outcome) (update_outcome_statement event_id outcome)

abbrev pub event_of_row : PendingRow → OrderEvent
event_of_row r = record {
  event_id = r.event_id;
  order_id = r.order_id;
  status = r.status;
  timestamp = r.event_timestamp;
  payload = r.payload;
}

abbrev pub found_event : Option PendingRow → Option OrderEvent
found_event none = none
found_event (some r) = some (event_of_row r)

-- loadNextPending; `none` stands for `found == false`.
unfoldable pub load_next_pending : Environment → String → Tx (Option OrderEvent)
load_next_pending env order_id = do
  row ← exec env (Operation.load_pending order_id) (select_pending_statement env order_id)
  pure (found_event row)

unfoldable pub delete_pending : Environment → String → Tx (Unit {0})
delete_pending env event_id =
    exec env (Operation.delete_pending event_id) (delete_pending_statement event_id)
