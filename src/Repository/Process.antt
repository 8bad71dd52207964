-- ===== src/Repository/Process.antt =====
-- ProcessEventTx and ProcessResult of order_repository.go
use senior_backend_order_ing.Prelude.{
  ℕ, String, Bool, true, false, Result, ok, err, map_err, if◌then◌else◌,
}
use senior_backend_order_ing.Domain.{
  Status, OrderEvent, Classification, TransitionResult, evaluate_transition,
}
use senior_backend_order_ing.Database.{Outcome, Environment}
use senior_backend_order_ing.Repository.Transaction.{
  Error, Tx, pure, fail, begin, commit_tx, with_rollback, ◌>>=◌, ◌>>◌,
}
use senior_backend_order_ing.Repository.Validation.{validate_event}
use senior_backend_order_ing.Repository.Statements.{
  acquire_lock, insert_processed_event, load_current_status, apply_event, insert_pending_event,
  insert_dead_letter_event, update_outcome,
}
use senior_backend_order_ing.Repository.Replay.{replay_pending}

pub record ProcessResult : Type 0 where
  pub event_id : String
  pub order_id : String
  pub classification : Classification
  pub applied : Bool
  pub duplicate : Bool
  pub pending : Bool
  pub dead_letter : Bool
  pub replayed_pending : ℕ
  pub reason : String

-- `ProcessResult{EventID: ..., OrderID: ..., Classification: ..., Reason: ...}`
abbrev pub result_of : OrderEvent → Classification → String → ProcessResult
result_of event c reason = record {
  event_id = event.event_id;
  order_id = event.order_id;
  classification = c;
  applied = false;
  duplicate = false;
  pending = false;
  dead_letter = false;
  replayed_pending = 0;
  reason = reason;
}

abbrev pub duplicate_event_result : OrderEvent → ProcessResult
duplicate_event_result event =
    record (result_of event Classification.duplicate_event "event ID has already been processed") {
      duplicate = true;
    }

unfoldable pub commit_result : Environment → ProcessResult → Tx ProcessResult
commit_result env result = do commit_tx env result.event_id; pure result

-- The cases of the `switch` on the classification, up to the commit.
unfoldable pub record_outcome :
    Environment
    → OrderEvent
    → String
    → Status × Bool
    → TransitionResult
    → Classification
    → Tx ProcessResult
record_outcome env event payload (current, order_exists) t Classification.applied = do
  apply_event env event current order_exists
  update_outcome env event.event_id (Outcome.classified Classification.applied)
  replayed ← replay_pending env event.order_id event.status
  pure (record (result_of event t.classification t.reason) {
    applied = true;
    replayed_pending = replayed;
  })
record_outcome env event payload at_load t Classification.duplicate_status = do
  update_outcome env event.event_id (Outcome.classified Classification.duplicate_status)
  pure (record (result_of event t.classification t.reason) { duplicate = true })
record_outcome env event payload at_load t Classification.out_of_order = do
  insert_pending_event env event t.reason payload
  update_outcome env event.event_id (Outcome.classified Classification.out_of_order)
  pure (record (result_of event t.classification t.reason) { pending = true })
record_outcome env event payload at_load t Classification.invalid_transition = do
  insert_dead_letter_event env event t.reason payload
  update_outcome env event.event_id (Outcome.classified Classification.invalid_transition)
  pure (record (result_of event t.classification t.reason) { dead_letter = true })
record_outcome env event payload at_load t Classification.duplicate_event =
    fail (Error.unsupported event.event_id Classification.duplicate_event)

-- A new event: its order's status is loaded and the transition is classified.
unfoldable pub classify_event : Environment → OrderEvent → String → Tx ProcessResult
unfolding record_outcome
classify_event env event payload = do
  at_load ← load_current_status env event.order_id
  let t = evaluate_transition at_load.0 event.status
  record_outcome env event payload at_load t t.classification

-- The transaction up to its commit.
unfoldable pub process_event : Environment → OrderEvent → String → Tx ProcessResult
unfolding classify_event
process_event env event payload = do
  acquire_lock env event.order_id
  inserted ← insert_processed_event env event
  if inserted then classify_event env event payload else pure (duplicate_event_result event)

unfoldable pub in_transaction : Environment → OrderEvent → String → Tx ProcessResult
unfolding process_event commit_result
in_transaction env event payload = do
  result ← process_event env event payload
  commit_result env result

abbrev pub validated : Environment → OrderEvent → Result Error String → Tx ProcessResult
validated env event (err e) = fail e
validated env event (ok payload) = do begin env; with_rollback (in_transaction env event payload)

unfoldable pub process_event_tx : Environment → OrderEvent → Tx ProcessResult
unfolding in_transaction
process_event_tx env event = validated env event (map_err Error.invalid (validate_event env event))
