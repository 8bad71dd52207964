-- ===== src/Repository.antt =====
-- internal/repository/order_repository.go: one event is processed in one transaction.
pub mod Transaction
pub mod Validation
pub mod Statements
pub mod Replay
pub mod Process
pub mod Model
pub mod Induction
pub mod Lifecycle
pub mod Accounting
pub mod Invariant
pub mod Idempotence
pub mod Calls
pub mod Effects
pub mod Stopped
pub mod Reports
pub mod Refused
pub mod Refinement
pub use Transaction.{Operation, Error, Invalid, Session, Tx}
pub use Validation.{validate_event}
pub use Process.{ProcessResult, process_event_tx}
