-- ===== src/Worker/Pool.antt =====
-- handleMessage and runWorker of pool.go
use senior_backend_order_ing.Prelude.{
  ℕ, zero, suc, String, Bool, true, false, Option, none, some, List, [], ◌∷◌, Result, ok, err,
  if◌then◌else◌,
}
use senior_backend_order_ing.Repository.Process.{ProcessResult}
use senior_backend_order_ing.Service.{ProcessError}
use senior_backend_order_ing.Queue.Message.{StreamMessage}
use senior_backend_order_ing.Monitoring.Collector.{
  Collector, record_result, record_failure, record_simulated_failure,
}
use senior_backend_order_ing.Worker.Interfaces.{
  QueueError, EventProcessor, StreamQueue, Context, Handled, with_metrics,
}
use senior_backend_order_ing.Worker.Simulator.{Simulator, should_skip_ack}

-- The part of Config that runWorker reads.
pub record WorkerConfig : Type 0 where
  pub read_count : ℕ
  pub block : ℕ
  pub read_error_backoff : ℕ

-- What a worker changes: the world outside, the metrics and the simulator of the pool.
pub record PoolState (S : Type 0) : Type 0 where
  pub outside : S
  pub metrics : Option Collector
  pub simulator : Option Simulator

-- `p.simulator != nil && p.simulator.shouldSkipAck()`
unfoldable pub ask_simulator : Option Simulator → Bool × Option Simulator
unfolding should_skip_ack
ask_simulator none = (false, none)
ask_simulator (some s) = let (skip, s') = should_skip_ack s in (skip, some s')

module _ {S : Type 0} where
  unfoldable pub after_ack : PoolState S → Result QueueError (Unit {0}) × S → Handled × PoolState S
  after_ack st (ok u, s) = (Handled.acked, record st { outside = s })
  after_ack st (err e, s) = (Handled.ack_failed, record st { outside = s })

  -- After the simulator has been asked: the acknowledgement is skipped, or sent.
  unfoldable pub acknowledge : StreamQueue S → String → Bool → PoolState S → Handled × PoolState S
  unfolding after_ack
  acknowledge queue redis_id true st = (
    Handled.ack_skipped,
    record st { metrics = with_metrics record_simulated_failure st.metrics },
  )
  acknowledge queue redis_id false st = after_ack st (queue.ack redis_id st.outside)

  unfoldable pub after_process :
      StreamQueue S
      → StreamMessage
      → PoolState S
      → Result ProcessError ProcessResult × S
      → Handled × PoolState S
  unfolding acknowledge ask_simulator
  after_process queue message st (err e, s) = (
    Handled.process_failed,
    record st { outside = s; metrics = with_metrics record_failure st.metrics },
  )
  after_process queue message st (ok result, s) =
      let (skip, simulator) = ask_simulator st.simulator in
      acknowledge queue message.redis_id skip (record {
        outside = s;
        metrics = with_metrics (record_result result) st.metrics;
        simulator = simulator;
      })

  unfoldable pub handle_message :
      EventProcessor S → StreamQueue S → StreamMessage → PoolState S → Handled × PoolState S
  unfolding after_process
  handle_message processor queue message st =
      after_process queue message st (processor.process message.event st.outside)

  -- The loop over the messages of one read.
  unfoldable pub handle_messages :
      EventProcessor S
      → StreamQueue S
      → List StreamMessage
      → PoolState S
      → List Handled × PoolState S
  unfolding handle_message
  handle_messages processor queue [] st = ([], st)
  handle_messages processor queue (message ∷ rest) st =
      let (handled, st') = handle_message processor queue message st in
      let (others, st'') = handle_messages processor queue rest st' in (handled ∷ others, st'')

  -- The loop goes on, or has stopped.
  abbrev pub while_running : (PoolState S → PoolState S) → Bool × PoolState S → PoolState S
  while_running loop (true, st) = loop st
  while_running loop (false, st) = st

  module _ (context : Context S) (processor : EventProcessor S) (queue : StreamQueue S)
      (config : WorkerConfig) (consumer_name : String) where
    -- A read that failed: the worker stops if its context is done or the read was cancelled, and
    -- else waits before it goes on. `true` means that the loop goes on.
    unfoldable pub after_read_error : QueueError → PoolState S → Bool × PoolState S
    after_read_error e st =
        let (is_done, s1) = context.is_done st.outside in
        if is_done then (false, record st { outside = s1 }) else elim e [
          | QueueError.canceled ↦ (false, record st { outside = s1 })
          | QueueError.queue_failed text ↦
              let (waited, s2) = context.wait_for_retry config.read_error_backoff s1 in
              (waited, record st { outside = s2 })
        ]

    unfoldable pub after_read :
        PoolState S → Result QueueError (List StreamMessage) × S → Bool × PoolState S
    unfolding after_read_error handle_messages
    after_read st (err e, s) = after_read_error e (record st { outside = s })
    after_read st (ok messages, s) =
        (true, (handle_messages processor queue messages (record st { outside = s })).1)

    -- One round of the loop of runWorker.
    unfoldable pub worker_round : PoolState S → Bool × PoolState S
    unfolding after_read
    worker_round st =
        let (is_done, s1) = context.is_done st.outside in
        if is_done
        then (false, record st { outside = s1 })
        else after_read (record st { outside = s1 })
            (queue.read_group consumer_name config.read_count config.block s1)

    -- The first `rounds` rounds of runWorker, or all of them if it stops before.
    unfoldable pub run_worker : ℕ → PoolState S → PoolState S
    unfolding worker_round
    run_worker zero st = st
    run_worker (suc rounds) st = while_running (run_worker rounds) (worker_round st)
