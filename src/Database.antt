-- ===== src/Database.antt =====
-- The PostgreSQL tables of migrations/001_init.sql, and the SQL statements of
-- internal/repository/order_repository.go as functions on them.
pub mod Table
pub mod Schema
pub mod Statements
pub mod Pending
pub use Schema.{
  Outcome, OrderRow, ProcessedRow, HistoryRow, PendingRow, DeadLetterRow, Db, empty_db,
}
pub use Statements.{Cause, Decoded, Environment, Statement}
