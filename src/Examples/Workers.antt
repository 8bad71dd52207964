-- ===== src/Examples/Workers.antt =====
-- A worker and the reclaimer on the two deliveries of an order, over a queue that counts
-- acknowledgements.
use senior_backend_order_ing.Prelude.{
  ℕ, suc, ◌-◌, ◌≡◌, true, false, List, [], ◌∷◌, none, ok, min, arith,
}
use senior_backend_order_ing.Domain.{OrderEvent}
use senior_backend_order_ing.Queue.Message.{StreamMessage}
use senior_backend_order_ing.Worker.Interfaces.{StreamQueue, PendingQueue}
use senior_backend_order_ing.Worker.Simulator.{answers, answers-fresh}
use senior_backend_order_ing.Worker.Pool
use senior_backend_order_ing.Worker.Pool.{PoolState, WorkerConfig}
use senior_backend_order_ing.Worker.Reclaimer
use senior_backend_order_ing.Worker.Reclaimer.{ReclaimerState, ReclaimConfig}
use senior_backend_order_ing.Worker.Delivery.{
  World, processor, stream_queue, pending_queue, IsSafe, pool_message-IsSafe,
}
use senior_backend_order_ing.Worker.Runs.{
  IsSafeBatch, pool_messages-IsSafeBatch, reclaim-IsSafeBatch,
}
use senior_backend_order_ing.Worker.Script.{
  Round, Phase, Call, scripted_context, scripted_processor, scripted_queue, scripted,
}
use senior_backend_order_ing.Worker.Scripted.{run_worker-handle_messages}
use senior_backend_order_ing.Worker.System.{
  handling, worker_moves, reclaimer_moves, restarts, Step, System, consumer_name, run_steps,
}
use senior_backend_order_ing.Worker.Interleavings.{IsSafeSystem, run_steps-IsSafeSystem}
use senior_backend_order_ing.Examples.Fixtures.{
  calm, created_event, paid_event, deferred, deferred-IsSound, keeps_json,
}

abbrev message : OrderEvent → StreamMessage
message event = record { redis_id = "1-0"; event = event; attempts = 0 }

abbrev messages : List StreamMessage
messages = message created_event ∷ message paid_event ∷ []

-- Its state is the number of acknowledgements.
abbrev pub stream : StreamQueue ℕ
stream = record {
  read_group = λ consumer count block n. (ok messages, n);
  ack = λ id n. (ok tt, suc n);
}

abbrev pub stale : PendingQueue ℕ
stale = record {
  claim_pending = λ consumer min_idle count n. (ok messages, n);
  ack = λ id n. (ok tt, suc n);
}

abbrev outside : World ℕ
outside = record { session = deferred; queue = 0 }

abbrev pool : PoolState (World ℕ)
pool = record { outside = outside; metrics = none; simulator = none }

abbrev reclaimer : ReclaimerState (World ℕ)
reclaimer = record { outside = outside; metrics = none }

abbrev worker_config : WorkerConfig
worker_config = record { read_count = 10; block = 1000; read_error_backoff = 100 }

abbrev reclaim_config : ReclaimConfig
reclaim_config = record { consumer_name = "reclaimer"; min_idle = 1000; count = 10 }

pool-message_example :
    let (handled, st) =
      Pool.handle_message (processor calm) (stream_queue stream) (message created_event) pool in
    IsSafe calm (message created_event) outside handled st.outside
pool-message_example =
    pool_message-IsSafe calm keeps_json stream (message created_event) pool deferred-IsSound

pool-messages_example :
    let (handled, st) = Pool.handle_messages (processor calm) (stream_queue stream) messages pool in
    IsSafeBatch calm messages outside handled st.outside
pool-messages_example =
    pool_messages-IsSafeBatch calm keeps_json stream messages pool deferred-IsSound

reclaim_example :
    let (handled, st) =
      Reclaimer.reclaim (processor calm) (pending_queue stale) reclaim_config reclaimer in
    IsSafeBatch calm messages outside handled st.outside
reclaim_example =
    reclaim-IsSafeBatch calm keeps_json stale reclaim_config reclaimer deferred-IsSound

-- A batch, a read that fails and is retried, the batch again, and a shutdown before another batch.
abbrev script : List Round
script =
    Round.batch messages
    ∷ Round.broken "timeout" false true
    ∷ Round.batch messages
    ∷ Round.shutdown
    ∷ Round.batch messages
    ∷ []

abbrev read_call : Call
read_call = Call.reads "worker-1" 10 1000

run_worker-handle_messages_example :
    Pool.run_worker scripted_context
      (scripted_processor (processor calm))
      (scripted_queue (stream_queue stream))
      worker_config
      "worker-1"
      6
      (scripted script [] Phase.reading pool)
    ≡ scripted
        (Round.shutdown ∷ Round.batch messages ∷ [])
        (read_call ∷ read_call ∷ Call.waits 100 ∷ read_call ∷ [])
        Phase.reading
        (Pool.handle_messages
          (processor calm)
          (stream_queue stream)
          (message created_event
            ∷ message paid_event
            ∷ message created_event
            ∷ message paid_event
            ∷ [])
          pool).1
run_worker-handle_messages_example =
    run_worker-handle_messages (processor calm) (stream_queue stream) worker_config "worker-1"
      script 6 (omega arith) [] pool

answers-fresh_example :
    answers 5 (record { after = 2; count = 1; successful_processed = 0 }) ≡ min (5 - 2) 1
answers-fresh_example = answers-fresh 2 1 5 (omega arith)

-- A pool and a reclaimer that hold nothing.
abbrev system : System (World ℕ)
system = record {
  outside = outside;
  metrics = none;
  simulator = none;
  worker = λ i. handling [];
  reclaimer = handling [];
  acked = [];
}

-- Both are handed the same messages, and the first worker dies before it acknowledges the first.
abbrev schedule : List Step
schedule =
    worker_moves 0
    ∷ reclaimer_moves
    ∷ worker_moves 0
    ∷ reclaimer_moves
    ∷ reclaimer_moves
    ∷ restarts none
    ∷ worker_moves 1
    ∷ worker_moves 1
    ∷ worker_moves 1
    ∷ []

run_steps-IsSafeSystem_example : IsSafeSystem calm (
    run_steps
      (processor calm)
      (stream_queue stream)
      (pending_queue stale)
      worker_config
      (consumer_name "app")
      reclaim_config
      schedule
      system)
run_steps-IsSafeSystem_example =
    run_steps-IsSafeSystem calm keeps_json stream stale worker_config (consumer_name "app")
      reclaim_config schedule system
      (record { sound = deferred-IsSound; acked = tt; workers = λ i. tt; reclaimer = tt })
