-- ===== src/Queue/Message.antt =====
-- StreamMessage of redis_stream.go
use senior_backend_order_ing.Prelude.{ℕ, String}
use senior_backend_order_ing.Domain.{OrderEvent}

pub record StreamMessage : Type 0 where
  pub redis_id : String
  pub event : OrderEvent
  pub attempts : ℕ
