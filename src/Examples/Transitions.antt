-- ===== src/Examples/Transitions.antt =====
-- The state machine, the validation and the counters on concrete inputs.
use senior_backend_order_ing.Prelude.{◌≡◌, ◌≢◌, ◌↔◌, ◌⊎◌, refl, inl, ok}
use senior_backend_order_ing.Domain.{Status, Classification}
use senior_backend_order_ing.Domain.Transitions.{
  Moves, IsAhead, Classifies, applied-iff-Moves, out_of_order-iff-IsAhead, terminal_rejects,
}
use senior_backend_order_ing.Repository.Validation.{
  IsAcceptable, validate_event, validate_event-iff-IsAcceptable,
}
use senior_backend_order_ing.Monitoring.Collector.{
  IsBalanced, new_collector, record_result, record_result-IsBalanced,
}
use senior_backend_order_ing.Examples.Fixtures.{calm, paid_event, created_result}

applied-iff-Moves_example :
    Classifies Status.paid Status.shipped Classification.applied ↔ Moves Status.paid Status.shipped
applied-iff-Moves_example = applied-iff-Moves Status.paid Status.shipped

out_of_order-iff-IsAhead_example :
    Classifies Status.created Status.shipped Classification.out_of_order
    ↔ IsAhead Status.created Status.shipped
out_of_order-iff-IsAhead_example = out_of_order-iff-IsAhead Status.created Status.shipped

terminal_rejects_example :
    ((Status.shipped ≡ Status.paid)
      × Classifies Status.shipped Status.paid Classification.duplicate_status)
    ⊎ ((Status.shipped ≢ Status.paid)
        × Classifies Status.shipped Status.paid Classification.invalid_transition)
terminal_rejects_example = terminal_rejects Status.shipped Status.paid (inl refl)

validate_event_example :
    (validate_event calm paid_event ≡ ok "{}") ↔ IsAcceptable calm paid_event "{}"
validate_event_example = validate_event-iff-IsAcceptable calm paid_event "{}"

record_result_example : IsBalanced (record_result created_result new_collector)
record_result_example = record_result-IsBalanced created_result new_collector refl
