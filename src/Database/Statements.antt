-- ===== src/Database/Statements.antt =====
-- The SQL of internal/repository/order_repository.go, statement by statement, under the constraints
-- of migrations/001_init.sql. What the server and the Go libraries decide is the environment.
use senior_backend_order_ing.Prelude.{
  ℕ, String, Bool, true, not, ◌&&◌, ◌||◌, Option, none, some, List, [], ◌∷◌, str_eq, ltb, ◌==◌,
  if◌then◌else◌, Result, ok, err,
}
use senior_backend_order_ing.Domain.{Status, is_known}
use senior_backend_order_ing.Database.Schema.{
  Outcome, OrderRow, ProcessedRow, HistoryRow, PendingRow, DeadLetterRow, Db,
}
use senior_backend_order_ing.Database.Table.{has, find_by, update_by, delete_by}

-- Why a statement fails.
pub data Cause : Type 0 where
  driver_failure unique_violation foreign_key_violation check_violation invalid_json : Cause

-- What `json.Unmarshal` into a map reports: an error, the nil map of `null`, or a map.
pub data Decoded : Type 0 where
  malformed null_value object : Decoded

-- What is not in the repository's files: encoding/json, the server's column types and collation,
-- and the calls of the driver, numbered in the order in which they are made.
pub record Environment : Type 0 where
  -- `json.Unmarshal` of a text into a map
  pub unmarshal : String → Decoded
  -- the instant that a TIMESTAMPTZ column keeps, of one in nanoseconds
  pub timestamptz : ℕ → ℕ
  -- the text that a JSONB column gives back, or `none` if it refuses its input
  pub jsonb : String → Option String
  -- the order of texts under ORDER BY, strictly before
  pub before : String → String → Bool
  -- the n-th call fails
  pub fault : ℕ → Bool
  -- if the n-th call is a COMMIT and fails, the server has committed all the same
  pub lost : ℕ → Bool
  -- `now()` in a transaction that the n-th call began
  pub clock : ℕ → ℕ

abbrev pub Statement : Type 0 → Type 0
Statement A = Db → Result Cause (A × Db)

abbrev pub order_key : OrderRow → String
order_key r = r.order_id

abbrev pub processed_key : ProcessedRow → String
processed_key r = r.event_id

abbrev pub history_key : HistoryRow → String
history_key r = r.event_id

abbrev pub pending_key : PendingRow → String
pending_key r = r.event_id

-- `CHECK (status IN (...))`, the condition of every status column
abbrev pub status_check : Status → Bool
status_check s = is_known s

-- `SELECT pg_advisory_xact_lock(hashtext($1))`: it reads and writes no table.
unfoldable pub lock_statement : Statement (Unit {0})
lock_statement db = ok (tt, db)

-- `INSERT INTO processed_events ... ON CONFLICT (event_id) DO NOTHING`, with the rows affected.
unfoldable pub insert_processed_statement : ProcessedRow → Statement ℕ
insert_processed_statement row db =
    if not (status_check row.status)
    then err Cause.check_violation
    else if has processed_key row.event_id db.processed
    then ok (0, db)
    else ok (1, record db { processed = row ∷ db.processed })

-- `SELECT current_status FROM orders WHERE order_id = $1`; `none` is pgx.ErrNoRows.
unfoldable pub select_status_statement : String → Statement (Option Status)
select_status_statement order_id db = ok (
  elim (find_by order_key order_id db.orders) [ none ↦ none | some r ↦ some r.current_status ],
  db,
)

abbrev pub set_status : Status → ℕ → ℕ → OrderRow → OrderRow
set_status status timestamp now row = record row {
  current_status = status;
  updated_at = now;
  last_event_timestamp = timestamp;
}

-- `UPDATE orders SET current_status = $2, updated_at = now(), last_event_timestamp = $3
-- WHERE order_id = $1`
unfoldable pub update_order_statement : String → Status → ℕ → ℕ → Statement (Unit {0})
update_order_statement order_id status timestamp now db =
    if not (status_check status)
    then err Cause.check_violation
    else ok (
      tt,
      record db {
        orders = update_by order_key order_id (set_status status timestamp now) db.orders;
      },
    )

-- `INSERT INTO orders`
unfoldable pub insert_order_statement : OrderRow → Statement (Unit {0})
insert_order_statement row db =
    if not (status_check row.current_status)
    then err Cause.check_violation
    else if has order_key row.order_id db.orders
    then err Cause.unique_violation
    else ok (tt, record db { orders = row ∷ db.orders })

-- The CHECK of `from_status`, which may be NULL.
abbrev pub from_check : Option Status → Bool
from_check none = true
from_check (some s) = status_check s

-- `INSERT INTO order_status_history`
unfoldable pub insert_history_statement : HistoryRow → Statement (Unit {0})
insert_history_statement row db =
    if not (from_check row.from_status && status_check row.to_status)
    then err Cause.check_violation
    else if has history_key row.event_id db.history
    then err Cause.unique_violation
    else if not (has order_key row.order_id db.orders)
    then err Cause.foreign_key_violation
    else ok (tt, record db { history = row ∷ db.history })

-- `INSERT INTO pending_events`
unfoldable pub insert_pending_statement : PendingRow → Statement (Unit {0})
insert_pending_statement row db =
    if not (status_check row.status)
    then err Cause.check_violation
    else if has pending_key row.event_id db.pending
    then err Cause.unique_violation
    else ok (tt, record db { pending = row ∷ db.pending })

-- `INSERT INTO dead_letter_events`
unfoldable pub insert_dead_letter_statement : DeadLetterRow → Statement (Unit {0})
insert_dead_letter_statement row db =
    if not (status_check row.status)
    then err Cause.check_violation
    else ok (tt, record db { dead_letters = row ∷ db.dead_letters })

abbrev pub set_outcome : Outcome → ProcessedRow → ProcessedRow
set_outcome outcome row = record row { outcome = outcome }

-- `UPDATE processed_events SET outcome = $2 WHERE event_id = $1`
unfoldable pub update_outcome_statement : String → Outcome → Statement (Unit {0})
update_outcome_statement event_id outcome db = ok (
  tt,
  record db { processed = update_by processed_key event_id (set_outcome outcome) db.processed },
)

-- `DELETE FROM pending_events WHERE event_id = $1`
unfoldable pub delete_pending_statement : String → Statement (Unit {0})
delete_pending_statement event_id db =
    ok (tt, record db { pending = delete_by pending_key event_id db.pending })

-- `ORDER BY event_timestamp, event_id`, strictly before
unfoldable pub earlier : Environment → PendingRow → PendingRow → Bool
earlier env a b =
    ltb a.event_timestamp b.event_timestamp
    || (a.event_timestamp == b.event_timestamp && env.before a.event_id b.event_id)

abbrev pub sooner : Environment → PendingRow → Option PendingRow → PendingRow
sooner env r none = r
sooner env r (some best) = if earlier env best r then best else r

-- `WHERE order_id = $1 ORDER BY event_timestamp, event_id LIMIT 1`
unfoldable pub first_pending : Environment → String → List PendingRow → Option PendingRow
first_pending env order_id [] = none
first_pending env order_id (r ∷ rs) =
    let rest = first_pending env order_id rs in
    if str_eq r.order_id order_id then some (sooner env r rest) else rest

-- The `SELECT` of loadNextPending; `none` is pgx.ErrNoRows.
unfoldable pub select_pending_statement : Environment → String → Statement (Option PendingRow)
select_pending_statement env order_id db = ok (first_pending env order_id db.pending, db)
