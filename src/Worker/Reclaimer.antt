-- ===== src/Worker/Reclaimer.antt =====
-- reclaim and handleMessage of reclaimer.go
use senior_backend_order_ing.Prelude.{ℕ, String, Option, List, [], ◌∷◌, Result, ok, err}
use senior_backend_order_ing.Repository.Process.{ProcessResult}
use senior_backend_order_ing.Service.{ProcessError}
use senior_backend_order_ing.Queue.Message.{StreamMessage}
use senior_backend_order_ing.Monitoring.Collector.{
  Collector, record_result, record_failure, record_recovered,
}
use senior_backend_order_ing.Worker.Interfaces.{
  QueueError, EventProcessor, PendingQueue, Handled, with_metrics,
}

-- The part of ReclaimerConfig that `reclaim` reads.
pub record ReclaimConfig : Type 0 where
  pub consumer_name : String
  pub min_idle : ℕ
  pub count : ℕ

pub record ReclaimerState (S : Type 0) : Type 0 where
  pub outside : S
  pub metrics : Option Collector

module _ {S : Type 0} where
  unfoldable pub after_ack :
      ReclaimerState S → Result QueueError (Unit {0}) × S → Handled × ReclaimerState S
  after_ack st (ok u, s) = (Handled.acked, record st { outside = s })
  after_ack st (err e, s) = (Handled.ack_failed, record st { outside = s })

  unfoldable pub after_process :
      PendingQueue S
      → StreamMessage
      → ReclaimerState S
      → Result ProcessError ProcessResult × S
      → Handled × ReclaimerState S
  unfolding after_ack
  after_process queue message st (err e, s) = (
    Handled.process_failed,
    record { outside = s; metrics = with_metrics record_failure st.metrics },
  )
  after_process queue message st (ok result, s) =
      after_ack
        (record {
          outside = s;
          metrics = with_metrics (λ c. record_recovered (record_result result c)) st.metrics;
        })
        (queue.ack message.redis_id s)

  unfoldable pub handle_message :
      EventProcessor S
      → PendingQueue S
      → StreamMessage
      → ReclaimerState S
      → Handled × ReclaimerState S
  unfolding after_process
  handle_message processor queue message st =
      after_process queue message st (processor.process message.event st.outside)

  unfoldable pub handle_messages :
      EventProcessor S
      → PendingQueue S
      → List StreamMessage
      → ReclaimerState S
      → List Handled × ReclaimerState S
  unfolding handle_message
  handle_messages processor queue [] st = ([], st)
  handle_messages processor queue (message ∷ rest) st =
      let (handled, st') = handle_message processor queue message st in
      let (others, st'') = handle_messages processor queue rest st' in (handled ∷ others, st'')

  unfoldable pub after_claim :
      EventProcessor S
      → PendingQueue S
      → ReclaimerState S
      → Result QueueError (List StreamMessage) × S
      → List Handled × ReclaimerState S
  unfolding handle_messages
  after_claim processor queue st (err e, s) = ([], record st { outside = s })
  after_claim processor queue st (ok messages, s) =
      handle_messages processor queue messages (record st { outside = s })

  -- One turn of the reclaimer.
  unfoldable pub reclaim :
      EventProcessor S
      → PendingQueue S
      → ReclaimConfig
      → ReclaimerState S
      → List Handled × ReclaimerState S
  unfolding after_claim
  reclaim processor queue config st =
      after_claim processor queue st
        (queue.claim_pending config.consumer_name config.min_idle config.count st.outside)
