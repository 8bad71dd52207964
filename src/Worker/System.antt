-- ===== src/Worker/System.antt =====
-- Run of pool.go and Run of reclaimer.go, side by side: the workers of the pool and the reclaimer, one
-- step at a time, in any order, over one database, one queue, one collector and one simulator; and the
-- process that dies and starts again. A context that is done, and the wait after an error, only delay
-- or end a goroutine: a step that is not taken. A message is handled in two steps, its processing and its
-- acknowledgement, between which the others may take theirs.
use Prim.Native.String.{◌++◌ as str_append}
use senior_backend_order_ing.Prelude.{
  ◌+◌, ℕ, String, Option, some, List, [], ◌∷◌, Result, ok, err, ◌==◌, if◌then◌else◌,
}
use senior_backend_order_ing.Prelude.Int.{pos}
use senior_backend_order_ing.Prelude.Decimal.{decimal}
use senior_backend_order_ing.Repository.Process.{ProcessResult}
use senior_backend_order_ing.Service.{ProcessError}
use senior_backend_order_ing.Queue.Message.{StreamMessage}
use senior_backend_order_ing.Monitoring.Collector.{
  Collector, new_collector, record_result, record_failure, record_simulated_failure,
  record_recovered,
}
use senior_backend_order_ing.Worker.Interfaces.{
  QueueError, EventProcessor, StreamQueue, PendingQueue, with_metrics,
}
use senior_backend_order_ing.Worker.Simulator.{Simulator}
use senior_backend_order_ing.Worker.Pool.{WorkerConfig, ask_simulator}
use senior_backend_order_ing.Worker.Reclaimer.{ReclaimConfig}

-- What a goroutine is about to do: handle the messages that are left of its read or claim, the next
-- read or claim when there are none; or acknowledge a processed message before those.
pub data Hand : Type 0 where
  handling : List StreamMessage → Hand
  acknowledging : StreamMessage → List StreamMessage → Hand

-- `acked` holds the messages for which an acknowledgement has been sent, whoever sent it.
pub record System (S : Type 0) : Type 0 where
  pub outside : S
  pub metrics : Option Collector
  pub simulator : Option Simulator
  pub worker : ℕ → Hand
  pub reclaimer : Hand
  pub acked : List StreamMessage

-- A step of the worker with a number, of the reclaimer, or a restart with a fresh simulator. What other
-- processes do to the queue is up to the queue.
pub data Step : Type 0 where
  worker_moves : ℕ → Step
  reclaimer_moves : Step
  restarts : Option Simulator → Step

-- The name of the worker with an index, from 0.
unfoldable pub consumer_name : String → ℕ → String
consumer_name prefix index = str_append prefix (str_append "-" (decimal (pos (index + 1))))

abbrev pub set_worker : {S : Type 0} → ℕ → Hand → System S → System S
set_worker i hand st = record st { worker = λ j. if j == i then hand else st.worker j }

module _ {S : Type 0} (processor : EventProcessor S) (queue : StreamQueue S)
    (pending : PendingQueue S) (config : WorkerConfig) (name : ℕ → String)
    (reclaim_config : ReclaimConfig) where
  -- A read or a claim; one that fails hands out nothing.
  abbrev pub received : Result QueueError (List StreamMessage) → List StreamMessage
  received (ok messages) = messages
  received (err e) = []

  -- What the pool does with the result of processing a message.
  unfoldable pub pool_processed :
      ℕ
      → StreamMessage
      → List StreamMessage
      → System S
      → Result ProcessError ProcessResult × S
      → System S
  pool_processed i message rest st (err e, s) =
      set_worker i (handling rest)
        (record st { outside = s; metrics = with_metrics record_failure st.metrics })
  pool_processed i message rest st (ok result, s) =
      let (skip, simulator) = ask_simulator st.simulator in
      let metrics = with_metrics (record_result result) st.metrics in
      if skip
      then set_worker i (handling rest) (record st {
        outside = s;
        metrics = with_metrics record_simulated_failure metrics;
        simulator = simulator;
      })
      else set_worker i (acknowledging message rest)
          (record st { outside = s; metrics = metrics; simulator = simulator })

  -- What the reclaimer does with it.
  unfoldable pub reclaimer_processed :
      StreamMessage
      → List StreamMessage
      → System S
      → Result ProcessError ProcessResult × S
      → System S
  reclaimer_processed message rest st (err e, s) = record st {
    outside = s;
    metrics = with_metrics record_failure st.metrics;
    reclaimer = handling rest;
  }
  reclaimer_processed message rest st (ok result, s) = record st {
    outside = s;
    metrics = with_metrics (λ c. record_recovered (record_result result c)) st.metrics;
    reclaimer = acknowledging message rest;
  }

  -- The next step of a worker: a read, the processing of a message, or an acknowledgement, whose
  -- answer is only logged.
  unfoldable pub worker_step : ℕ → Hand → System S → System S
  worker_step i (handling []) st =
      let (r, s) = queue.read_group (name i) config.read_count config.block st.outside in
      set_worker i (handling (received r)) (record st { outside = s })
  worker_step i (handling (message ∷ rest)) st =
      pool_processed i message rest st (processor.process message.event st.outside)
  worker_step i (acknowledging message rest) st =
      let (r, s) = queue.ack message.redis_id st.outside in
      set_worker i (handling rest) (record st { outside = s; acked = message ∷ st.acked })

  -- The next step of the reclaimer: a claim, and the same.
  unfoldable pub reclaimer_step : Hand → System S → System S
  reclaimer_step (handling []) st =
      let (r, s) =
        pending.claim_pending reclaim_config.consumer_name reclaim_config.min_idle
          reclaim_config.count st.outside in
      record st { outside = s; reclaimer = handling (received r) }
  reclaimer_step (handling (message ∷ rest)) st =
      reclaimer_processed message rest st (processor.process message.event st.outside)
  reclaimer_step (acknowledging message rest) st =
      let (r, s) = pending.ack message.redis_id st.outside in
      record st { outside = s; reclaimer = handling rest; acked = message ∷ st.acked }

  unfoldable pub perform : Step → System S → System S
  perform (worker_moves i) st = worker_step i (st.worker i) st
  perform reclaimer_moves st = reclaimer_step st.reclaimer st
  perform (restarts simulator) st = record st {
    metrics = some new_collector;
    simulator = simulator;
    worker = λ i. handling [];
    reclaimer = handling [];
  }

  -- The steps in their order.
  unfoldable pub run_steps : List Step → System S → System S
  run_steps [] st = st
  run_steps (step ∷ steps) st = run_steps steps (perform step st)
