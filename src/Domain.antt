-- ===== src/Domain.antt =====
-- internal/domain: the order event, the order status, and the status state machine.
-- A status is a Go string; `unset` is the empty string and `unknown` any text that is not one of
-- the four constants. `Status.of_text` and `Status.to_text` are the two conversions.
mod Event
mod StateMachine
pub use Event.{Status, OrderEvent, zero_time, is_zero}
unfoldable pub use Event.{is_known, of_text, to_text, status_eq}
pub use StateMachine.{Classification, TransitionResult}
unfoldable pub use StateMachine.{
  evaluate_transition, transition_table, applied_result, duplicate_result, invalid_result,
  out_of_order_result,
}
pub mod Transitions
