-- ===== src/Database/Schema.antt =====
-- migrations/001_init.sql: the rows and the tables. Left out are the columns that the database
-- fills and no code reads: the serial numbers, `attempts`, `last_attempt_at`, and the creation
-- times of all tables but `orders`.
use senior_backend_order_ing.Prelude.{ℕ, String, Option, List, []}
use senior_backend_order_ing.Domain.{Status, Classification}

-- The column `outcome` of processed_events: RECEIVED, or a classification.
pub data Outcome : Type 0 where
  received : Outcome
  classified : Classification → Outcome

pub record OrderRow : Type 0 where
  pub order_id : String
  pub current_status : Status
  pub created_at : ℕ
  pub updated_at : ℕ
  pub last_event_timestamp : ℕ

pub record ProcessedRow : Type 0 where
  pub event_id : String
  pub order_id : String
  pub status : Status
  pub event_timestamp : ℕ
  pub outcome : Outcome

pub record HistoryRow : Type 0 where
  pub event_id : String
  pub order_id : String
  pub from_status : Option Status
  pub to_status : Status
  pub event_timestamp : ℕ

pub record PendingRow : Type 0 where
  pub event_id : String
  pub order_id : String
  pub status : Status
  pub event_timestamp : ℕ
  pub reason : String
  pub payload : String

pub record DeadLetterRow : Type 0 where
  pub event_id : String
  pub order_id : String
  pub status : Status
  pub reason : String
  pub payload : String

-- The five tables, the newest row of each first.
pub record Db : Type 0 where
  pub orders : List OrderRow
  pub processed : List ProcessedRow
  pub history : List HistoryRow
  pub pending : List PendingRow
  pub dead_letters : List DeadLetterRow

abbrev pub empty_db : Db
empty_db = record { orders = []; processed = []; history = []; pending = []; dead_letters = [] }
