-- ===== src/Service.antt =====
-- internal/service/processor.go: the repository's call, with the event ID added to its errors.
use senior_backend_order_ing.Prelude.{String, Result, map_err}
use senior_backend_order_ing.Domain.{OrderEvent}
use senior_backend_order_ing.Repository.Transaction.{Error}
use senior_backend_order_ing.Repository.Process.{ProcessResult}

-- `fmt.Errorf("process order event %q: %w", ...)`
pub record ProcessError : Type 0 where
  pub event_id : String
  pub cause : Error

-- `Processor.orders`, any value of the interface OrderRepository, over the state `S` of the outside
-- world.
pub record OrderRepository (S : Type 0) : Type 0 where
  pub process_event_tx : OrderEvent → S → Result Error ProcessResult × S

unfoldable pub process :
    {S : Type 0} → OrderRepository S → OrderEvent → S → Result ProcessError ProcessResult × S
process orders event s =
    let (result, s') = orders.process_event_tx event s in
    (map_err (λ e. record { event_id = event.event_id; cause = e }) result, s')
