-- ===== src/Examples/Fixtures.antt =====
-- The inputs of the examples: an environment, events, sessions and a queue.
use senior_backend_order_ing.Prelude.{
  str_eq, if◌then◌else◌, none, inl, ℕ, String, true, false, some, ◌≡◌, refl, ok,
}
use senior_backend_order_ing.Domain.{
  is_known, status_eq, evaluate_transition, applied_result, duplicate_result, invalid_result,
  out_of_order_result, transition_table, Status, OrderEvent, Classification,
}
use senior_backend_order_ing.Database.Table.{has, find_by, update_by, delete_by}
use senior_backend_order_ing.Database.Statements.{
  lock_statement, insert_processed_statement, select_status_statement, insert_pending_statement,
  update_outcome_statement, delete_pending_statement, earlier, first_pending,
  insert_dead_letter_statement, insert_history_statement, insert_order_statement,
  select_pending_statement, update_order_statement,
}
use senior_backend_order_ing.Repository.Statements.{
  acquire_lock, insert_processed_event, load_current_status, apply_event, write_order,
  insert_pending_event, insert_dead_letter_event, update_outcome, load_next_pending, delete_pending,
}
use senior_backend_order_ing.Repository.Replay.{
  replay_event, replay_found, replay_round, replay_loop, replay_pending,
}
use senior_backend_order_ing.Database.{Decoded, Environment, empty_db}
use senior_backend_order_ing.Repository.Transaction.{Session, exec, begin, commit_tx}
use senior_backend_order_ing.Repository.Process.{
  ProcessResult, process_event_tx, in_transaction, process_event, classify_event, record_outcome,
  commit_result,
}
use senior_backend_order_ing.Repository.Validation.{
  validate_event, check_object, default_payload, is_persistable_status,
}
use senior_backend_order_ing.Repository.Invariant.{
  IsSound, IsStorable, process_event_tx-IsSound, empty_db-IsSound,
}
use senior_backend_order_ing.Repository.Calls.{KeepsJson}

-- A server that never fails and keeps every value as it is.
abbrev pub calm : Environment
calm = record {
  unmarshal = λ _. Decoded.object;
  timestamptz = λ t. t;
  jsonb = λ p. some p;
  before = λ a b. false;
  fault = λ n. false;
  lost = λ n. false;
  clock = λ n. n;
}

-- The same, but the JSONB columns refuse one text.
abbrev pub strict : Environment
strict = record calm { jsonb = λ p. if str_eq p "refused" then none else some p }

abbrev pub event_of : String → Status → ℕ → OrderEvent
event_of id status at = record {
  event_id = id;
  order_id = "order-1";
  status = status;
  timestamp = at;
  payload = "";
}

abbrev pub created_event : OrderEvent
created_event = event_of "e-created" Status.created 10

abbrev pub paid_event : OrderEvent
paid_event = event_of "e-paid" Status.paid 20

abbrev pub refused_event : OrderEvent
refused_event = record paid_event { payload = "refused" }

-- Another event with the ID of `created_event`.
abbrev pub cancelled_event : OrderEvent
cancelled_event = event_of "e-created" Status.cancelled 30

abbrev pub start : Session
start = record { calls = 0; durable = empty_db; working = empty_db; now = 0 }

pub storable : IsStorable calm "{}" "{}"
storable = record { accepted = inl refl; stable = refl }

pub keeps_json : KeepsJson calm
keeps_json = record { empty_object = refl; stable = λ payload stored e. refl }

pub created_valid : validate_event calm created_event ≡ ok "{}"
unfolding validate_event
created_valid = refl

pub refused_valid : validate_event strict refused_event ≡ ok "refused"
unfolding validate_event
refused_valid = refl

pub paid_valid : validate_event calm paid_event ≡ ok "{}"
unfolding validate_event
paid_valid = refl

pub cancelled_valid : validate_event calm cancelled_event ≡ ok "{}"
unfolding validate_event
cancelled_valid = refl

-- PAID has come first, and waits for CREATED.
abbrev pub deferred : Session
deferred = (process_event_tx calm paid_event start).1

pub deferred-IsSound : IsSound calm deferred.durable
deferred-IsSound =
    process_event_tx-IsSound calm paid_event "{}" "{}" start (empty_db-IsSound calm) paid_valid
      storable

-- CREATED is applied and PAID after it.
abbrev pub created_result : ProcessResult
created_result = record {
  event_id = "e-created";
  order_id = "order-1";
  classification = Classification.applied;
  duplicate = false;
  applied = true;
  pending = false;
  dead_letter = false;
  replayed_pending = 1;
  reason = "new orders start in CREATED";
}

pub created_done : (process_event_tx calm created_event deferred).0 ≡ ok created_result
unfolding process_event_tx in_transaction process_event classify_event record_outcome commit_result
    validate_event check_object default_payload is_persistable_status begin commit_tx exec
    acquire_lock insert_processed_event load_current_status apply_event write_order
    insert_pending_event insert_dead_letter_event update_outcome load_next_pending delete_pending
    replay_event replay_found replay_round replay_loop replay_pending lock_statement
    insert_processed_statement select_status_statement insert_pending_statement
    update_outcome_statement delete_pending_statement earlier first_pending
    insert_dead_letter_statement insert_history_statement insert_order_statement
    select_pending_statement update_order_statement has find_by update_by delete_by is_known
    status_eq applied_result duplicate_result invalid_result out_of_order_result transition_table
    evaluate_transition
created_done = refl
