-- ===== src/Worker/Scripted.antt =====
-- runWorker of pool.go on a script of what its context and its queue do.
use senior_backend_order_ing.Prelude.{
  ℕ, zero, suc, ◌<◌, ◌≡◌, refl, ap, sym, ◌∙◌, String, Bool, true, false, List, [], ◌∷◌, ◌++◌,
  Result, ok, err, length, arith,
}
use senior_backend_order_ing.Repository.Process.{ProcessResult}
use senior_backend_order_ing.Service.{ProcessError}
use senior_backend_order_ing.Queue.Message.{StreamMessage}
use senior_backend_order_ing.Worker.Interfaces.{QueueError, EventProcessor, StreamQueue, Handled}
use senior_backend_order_ing.Worker.Pool
use senior_backend_order_ing.Worker.Pool.{PoolState, WorkerConfig}
use senior_backend_order_ing.Worker.Script.{
  Round, Phase, Call, Scripted, handed_out, unread, calls_after, scripted_context,
  scripted_processor, scripted_queue, scripted,
}

module _ {S : Type 0} where
  module _ (processor : EventProcessor S) (queue : StreamQueue S) where
    -- Handling a batch and then another one is handling both.
    handle_messages-append :
        (ms ms' : List StreamMessage) (st : PoolState S)
        → (Pool.handle_messages processor queue (ms ++ ms') st).1
          ≡ (Pool.handle_messages processor queue ms'
              (Pool.handle_messages processor queue ms st).1).1
    unfolding Pool.handle_messages
    handle_messages-append [] ms' st = refl
    handle_messages-append (m ∷ ms) ms' st =
        handle_messages-append ms ms' (Pool.handle_message processor queue m st).1

    module _ (rounds : List Round) (calls : List Call) (phase : Phase) where
      abbrev lifted : Handled × PoolState S → Handled × PoolState (Scripted S)
      lifted (h, st) = (h, scripted rounds calls phase st)

      after_ack-scripted :
          (st : PoolState S) (r : Result QueueError (Unit {0})) (s : S)
          → Pool.after_ack
              (scripted rounds calls phase st)
              (r, record { rounds = rounds; calls = calls; phase = phase; inner = s })
            ≡ lifted (Pool.after_ack st (r, s))
      unfolding Pool.after_ack
      after_ack-scripted st (ok u) s = refl
      after_ack-scripted st (err e) s = refl

      acknowledge-scripted :
          (redis_id : String) (skip : Bool) (st : PoolState S)
          → Pool.acknowledge (scripted_queue queue) redis_id skip (scripted rounds calls phase st)
            ≡ lifted (Pool.acknowledge queue redis_id skip st)
      unfolding Pool.acknowledge
      acknowledge-scripted redis_id true st = refl
      acknowledge-scripted redis_id false st =
          let (r, s) = queue.ack redis_id st.outside in after_ack-scripted st r s

      after_process-scripted :
          (m : StreamMessage) (st : PoolState S) (r : Result ProcessError ProcessResult) (s : S)
          → Pool.after_process
              (scripted_queue queue)
              m
              (scripted rounds calls phase st)
              (r, record { rounds = rounds; calls = calls; phase = phase; inner = s })
            ≡ lifted (Pool.after_process queue m st (r, s))
      unfolding Pool.after_process
      after_process-scripted m st (ok result) s = acknowledge-scripted m.redis_id _ _
      after_process-scripted m st (err e) s = refl

      handle_message-scripted :
          (m : StreamMessage) (st : PoolState S)
          → Pool.handle_message
              (scripted_processor processor)
              (scripted_queue queue)
              m
              (scripted rounds calls phase st)
            ≡ lifted (Pool.handle_message processor queue m st)
      unfolding Pool.handle_message
      handle_message-scripted m st =
          let (r, s) = processor.process m.event st.outside in after_process-scripted m st r s

      -- The messages of a batch are handled in the same way with a script as without.
      handle_messages-scripted :
          (ms : List StreamMessage) (st : PoolState S)
          → (Pool.handle_messages
              (scripted_processor processor)
              (scripted_queue queue)
              ms
              (scripted rounds calls phase st)).1
            ≡ scripted rounds calls phase (Pool.handle_messages processor queue ms st).1
      unfolding Pool.handle_messages
      handle_messages-scripted [] st = refl
      handle_messages-scripted (m ∷ ms) st =
          ap
            (λ (one : Handled × PoolState (Scripted S)).
              (Pool.handle_messages (scripted_processor processor) (scripted_queue queue) ms
                one.1).1)
            (handle_message-scripted m st)
          ∙ handle_messages-scripted ms (Pool.handle_message processor queue m st).1

    module _ (config : WorkerConfig) (name : String) where
      -- On any script of fewer rounds than the loop may take, for any processor and queue: the worker
      -- reads, with its name, its count and its block time, until its context is done before a read or
      -- after one that failed, a read is cancelled, or a wait is cut short; after any other read that
      -- failed it waits once, for the back-off, and goes on; the messages of all the batches that it
      -- has read are handled as one batch of theirs in this order is; and from where it has to stop on,
      -- nothing of the script is read.
      pub run_worker-handle_messages :
          (rounds : List Round) (fuel : ℕ)
          → length rounds < fuel
          → (calls : List Call) (st : PoolState S)
          → Pool.run_worker scripted_context
              (scripted_processor processor)
              (scripted_queue queue)
              config
              name
              fuel
              (scripted rounds calls Phase.reading st)
            ≡ scripted
                (unread rounds)
                (calls_after config name calls rounds)
                Phase.reading
                (Pool.handle_messages processor queue (handed_out rounds) st).1
      unfolding Pool.run_worker Pool.worker_round Pool.after_read Pool.after_read_error
          Pool.handle_messages
      run_worker-handle_messages [] (suc fuel) enough calls st = refl
      run_worker-handle_messages (Round.shutdown ∷ rest) (suc fuel) enough calls st = refl
      run_worker-handle_messages (Round.batch ms ∷ rest) (suc fuel) enough calls st =
          let calls' = calls ++ (Call.reads name config.read_count config.block ∷ []) in
          let st' = (Pool.handle_messages processor queue ms st).1 in
          ap
            (Pool.run_worker scripted_context (scripted_processor processor) (scripted_queue queue)
              config name fuel)
            (handle_messages-scripted rest calls' Phase.reading ms st)
          ∙ run_worker-handle_messages rest fuel (omega arith) calls' st'
          ∙ ap (scripted (unread rest) (calls_after config name calls' rest) Phase.reading)
              (sym (handle_messages-append ms (handed_out rest) st))
      run_worker-handle_messages (Round.cancelled true ∷ rest) (suc fuel) enough calls st = refl
      run_worker-handle_messages (Round.cancelled false ∷ rest) (suc fuel) enough calls st = refl
      run_worker-handle_messages (Round.broken text true w ∷ rest) (suc fuel) enough calls st = refl
      run_worker-handle_messages (Round.broken text false false ∷ rest) (suc fuel) enough calls st =
          refl
      run_worker-handle_messages (Round.broken text false true ∷ rest) (suc fuel) enough calls st =
          run_worker-handle_messages rest fuel (omega arith) _ st
      run_worker-handle_messages rounds zero enough calls st = absurd (omega arith)
