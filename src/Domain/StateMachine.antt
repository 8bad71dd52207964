-- ===== src/Domain/StateMachine.antt =====
-- internal/domain/state_machine.go
use senior_backend_order_ing.Prelude.{String, Bool, true, false, not, ◌&&◌, if◌then◌else◌}
use senior_backend_order_ing.Domain.Event.{Status, is_known, status_eq}

-- The classification strings; `duplicate_event` is the one that internal/repository adds.
pub data Classification : Type 0 where
  applied duplicate_status out_of_order invalid_transition duplicate_event : Classification

pub record TransitionResult : Type 0 where
  pub allowed : Bool
  pub classification : Classification
  pub reason : String

unfoldable pub applied_result : String → TransitionResult
applied_result reason = record {
  allowed = true;
  classification = Classification.applied;
  reason = reason;
}

unfoldable pub out_of_order_result : String → TransitionResult
out_of_order_result reason = record {
  allowed = false;
  classification = Classification.out_of_order;
  reason = reason;
}

unfoldable pub invalid_result : String → TransitionResult
invalid_result reason = record {
  allowed = false;
  classification = Classification.invalid_transition;
  reason = reason;
}

unfoldable pub duplicate_result : TransitionResult
duplicate_result = record {
  allowed = false;
  classification = Classification.duplicate_status;
  reason = "order already has the requested status";
}

-- The `switch` on the two statuses.
unfoldable pub transition_table : Status → Status → TransitionResult
unfolding applied_result out_of_order_result invalid_result
transition_table Status.unset Status.created = applied_result "new orders start in CREATED"
transition_table Status.created Status.paid = applied_result "CREATED orders can be paid"
transition_table Status.paid Status.shipped = applied_result "PAID orders can be shipped"
transition_table Status.created Status.cancelled = applied_result "CREATED orders can be cancelled"
transition_table Status.paid Status.cancelled = applied_result "PAID orders can be cancelled"
transition_table Status.unset Status.paid = out_of_order_result "CREATED event has not been applied"
transition_table Status.unset Status.shipped =
    out_of_order_result "CREATED and PAID events have not been applied"
transition_table Status.created Status.shipped =
    out_of_order_result "PAID event has not been applied"
transition_table _ _ = invalid_result "transition is not allowed"

unfoldable pub evaluate_transition : Status → Status → TransitionResult
unfolding is_known status_eq transition_table invalid_result duplicate_result
evaluate_transition current next =
    if not (is_known next)
    then invalid_result "next status is unknown"
    else if not (status_eq current Status.unset) && not (is_known current)
    then invalid_result "current status is unknown"
    else if status_eq current next
    then duplicate_result
    else transition_table current next
