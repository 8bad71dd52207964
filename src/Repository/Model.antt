-- ===== src/Repository/Model.antt =====
-- What a repository call means for the tables when no call of the driver fails: the specification
-- that ProcessEventTx is proved to meet. It has no session, no error and no constraint.
use senior_backend_order_ing.Prelude.{
  ℕ, zero, suc, ◌+◌, String, Bool, true, false, Option, none, some, ◌∷◌, if◌then◌else◌, length,
}
use senior_backend_order_ing.Domain.{
  Status, OrderEvent, Classification, TransitionResult, evaluate_transition,
}
use senior_backend_order_ing.Database.{
  Outcome, OrderRow, ProcessedRow, HistoryRow, PendingRow, Db, Environment,
}
use senior_backend_order_ing.Database.Table.{has, find_by, update_by, delete_by}
use senior_backend_order_ing.Database.Statements.{
  order_key, processed_key, pending_key, set_status, set_outcome, first_pending,
}
use senior_backend_order_ing.Repository.Statements.{found_status, event_of_row}
use senior_backend_order_ing.Repository.Replay.{Round, again, finished}
use senior_backend_order_ing.Repository.Process.{ProcessResult, result_of, duplicate_event_result}

-- The stored status of an order, if there is one.
abbrev pub status_of : String → Db → Option Status
status_of order_id db = elim (find_by order_key order_id db.orders) [
  | none ↦ none
  | some r ↦ some r.current_status
]

module _ (env : Environment) (now : ℕ) where
  abbrev pub received_row : OrderEvent → ProcessedRow
  received_row event = record {
    event_id = event.event_id;
    order_id = event.order_id;
    status = event.status;
    event_timestamp = env.timestamptz event.timestamp;
    outcome = Outcome.received;
  }

  abbrev pub order_row : OrderEvent → OrderRow
  order_row event = record {
    order_id = event.order_id;
    current_status = event.status;
    created_at = now;
    updated_at = now;
    last_event_timestamp = env.timestamptz event.timestamp;
  }

  abbrev pub history_row : OrderEvent → Status → Bool → HistoryRow
  history_row event current order_exists = record {
    event_id = event.event_id;
    order_id = event.order_id;
    from_status = if order_exists then some current else none;
    to_status = event.status;
    event_timestamp = env.timestamptz event.timestamp;
  }

  -- The order has the event's status, and the transition is in its history.
  abbrev pub applied_db : OrderEvent → Status → Bool → Db → Db
  applied_db event current true db = record db {
    orders =
        update_by order_key event.order_id
          (set_status event.status (env.timestamptz event.timestamp) now) db.orders;
    history = history_row event current true ∷ db.history;
  }
  applied_db event current false db = record db {
    orders = order_row event ∷ db.orders;
    history = history_row event current false ∷ db.history;
  }

  abbrev pub outcome_db : String → Classification → Db → Db
  outcome_db event_id c db = record db {
    processed = update_by processed_key event_id (set_outcome (Outcome.classified c)) db.processed;
  }

  abbrev pub dead_db : OrderEvent → String → String → Db → Db
  dead_db event reason stored db = record db {
    dead_letters =
        record {
          event_id = event.event_id;
          order_id = event.order_id;
          status = event.status;
          reason = reason;
          payload = stored;
        }
        ∷ db.dead_letters;
  }

  abbrev pub pending_db : OrderEvent → String → String → Db → Db
  pending_db event reason stored db = record db {
    pending =
        record {
          event_id = event.event_id;
          order_id = event.order_id;
          status = event.status;
          event_timestamp = env.timestamptz event.timestamp;
          reason = reason;
          payload = stored;
        }
        ∷ db.pending;
  }

  abbrev pub unpend_db : String → Db → Db
  unpend_db event_id db = record db { pending = delete_by pending_key event_id db.pending }

  -- One pending event, by its classification.
  unfoldable pub replay_event_model :
      PendingRow → Status → ℕ → TransitionResult → Classification → Db → Round × Db
  replay_event_model r current count t Classification.applied db = (
    again r.status (count + 1),
    unpend_db r.event_id (
        outcome_db r.event_id Classification.applied (applied_db (event_of_row r) current true db)),
  )
  replay_event_model r current count t Classification.duplicate_status db = (
    again current count,
    unpend_db r.event_id (outcome_db r.event_id Classification.duplicate_status db),
  )
  replay_event_model r current count t Classification.invalid_transition db = (
    again current count,
    unpend_db r.event_id (
        outcome_db r.event_id Classification.invalid_transition
          (dead_db (event_of_row r) t.reason r.payload db)),
  )
  replay_event_model r current count t _ db = (finished count, db)

  unfoldable pub replay_found_model : Status → ℕ → Option PendingRow → Db → Round × Db
  unfolding replay_event_model
  replay_found_model current count none db = (finished count, db)
  replay_found_model current count (some r) db =
      let t = evaluate_transition current r.status in
      replay_event_model r current count t t.classification db

  unfoldable pub replay_round_model : String → Status → ℕ → Db → Round × Db
  unfolding replay_found_model
  replay_round_model order_id current count db =
      replay_found_model current count (first_pending env order_id db.pending) db

  abbrev pub after_round_model : (Status → ℕ → Db → ℕ × Db) → Round × Db → ℕ × Db
  after_round_model loop (again current count, db) = loop current count db
  after_round_model loop (finished count, db) = (count, db)

  unfoldable pub replay_loop_model : String → ℕ → Status → ℕ → Db → ℕ × Db
  unfolding replay_round_model
  replay_loop_model order_id zero current count db = (count, db)
  replay_loop_model order_id (suc fuel) current count db =
      after_round_model (replay_loop_model order_id fuel)
        (replay_round_model order_id current count db)

  unfoldable pub replay_pending_model : String → Status → Db → ℕ × Db
  unfolding replay_loop_model
  replay_pending_model order_id current db =
      replay_loop_model order_id (suc (length db.pending)) current 0 db

  abbrev pub with_replay : ProcessResult → ℕ × Db → ProcessResult × Db
  with_replay result (replayed, db) =
      (record result { applied = true; replayed_pending = replayed }, db)

  unfoldable pub record_outcome_model :
      OrderEvent
      → String
      → Status × Bool
      → TransitionResult
      → Classification
      → Db
      → ProcessResult × Db
  record_outcome_model event stored (current, order_exists) t Classification.applied db =
      with_replay (result_of event t.classification t.reason) (
        replay_pending_model event.order_id event.status (
          outcome_db event.event_id Classification.applied
            (applied_db event current order_exists db)))
  record_outcome_model event stored at_load t Classification.duplicate_status db = (
    record (result_of event t.classification t.reason) { duplicate = true },
    outcome_db event.event_id Classification.duplicate_status db,
  )
  record_outcome_model event stored at_load t Classification.out_of_order db = (
    record (result_of event t.classification t.reason) { pending = true },
    outcome_db event.event_id Classification.out_of_order (pending_db event t.reason stored db),
  )
  record_outcome_model event stored at_load t Classification.invalid_transition db = (
    record (result_of event t.classification t.reason) { dead_letter = true },
    outcome_db event.event_id Classification.invalid_transition (dead_db event t.reason stored db),
  )
  record_outcome_model event stored at_load t Classification.duplicate_event db =
      (duplicate_event_result event, db)

  unfoldable pub classify_model : OrderEvent → String → Db → ProcessResult × Db
  unfolding record_outcome_model
  classify_model event stored db =
      let at_load = found_status (status_of event.order_id db) in
      let t = evaluate_transition at_load.0 event.status in
      record_outcome_model event stored at_load t t.classification db

  -- One event, with the payload as the JSONB column keeps it.
  unfoldable pub process_model : OrderEvent → String → Db → ProcessResult × Db
  unfolding classify_model
  process_model event stored db =
      if has processed_key event.event_id db.processed
      then (duplicate_event_result event, db)
      else classify_model event stored (record db { processed = received_row event ∷ db.processed })
