-- ===== src/Worker/Script.antt =====
-- What the context and the queue of runWorker in pool.go do, round by round, as a script.
use senior_backend_order_ing.Prelude.{
  ℕ, String, Bool, true, false, List, [], ◌∷◌, ◌++◌, Result, ok, err,
}
use senior_backend_order_ing.Queue.Message.{StreamMessage}
use senior_backend_order_ing.Worker.Interfaces.{QueueError, EventProcessor, StreamQueue, Context}
use senior_backend_order_ing.Worker.Pool.{PoolState, WorkerConfig}

-- A round of the script: the context is done before the read; the read returns a batch; the read is
-- cancelled, while the context is done or not; the read fails, the context is done then or not, and a
-- wait comes to its end or not.
pub data Round : Type 0 where
  shutdown : Round
  batch : List StreamMessage → Round
  cancelled : Bool → Round
  broken : String → Bool → Bool → Round

-- Where in a round the worker is: before a read, or after one that failed or that was cancelled.
pub data Phase : Type 0 where
  reading : Phase
  failed : Bool → Bool → Phase
  waiting : Bool → Phase
  dropped : Bool → Phase

-- The calls that are written down, with their arguments.
pub data Call : Type 0 where
  reads : String → ℕ → ℕ → Call
  waits : ℕ → Call

-- The script, what has been called, and the state of the world that the messages are handled in.
pub record Scripted (S : Type 0) : Type 0 where
  pub rounds : List Round
  pub calls : List Call
  pub phase : Phase
  pub inner : S

-- A script that is at its end shuts down.
abbrev is_over : List Round → Bool
is_over [] = true
is_over (Round.shutdown ∷ rest) = true
is_over (_ ∷ rest) = false

abbrev asked : Phase → List Round → Bool × Phase
asked Phase.reading rounds = (is_over rounds, Phase.reading)
asked (Phase.failed true w) rounds = (true, Phase.reading)
asked (Phase.failed false w) rounds = (false, Phase.waiting w)
asked (Phase.waiting w) rounds = (false, Phase.waiting w)
asked (Phase.dropped d) rounds = (d, Phase.reading)

abbrev waited : Phase → Bool × Phase
waited (Phase.waiting w) = (w, Phase.reading)
waited p = (true, p)

abbrev taken : List Round → Result QueueError (List StreamMessage) × (List Round × Phase)
taken [] = (err QueueError.canceled, ([], Phase.reading))
taken (Round.shutdown ∷ rest) = (err QueueError.canceled, (rest, Phase.reading))
taken (Round.batch ms ∷ rest) = (ok ms, (rest, Phase.reading))
taken (Round.cancelled d ∷ rest) = (err QueueError.canceled, (rest, Phase.dropped d))
taken (Round.broken text d w ∷ rest) =
    (err (QueueError.queue_failed text), (rest, Phase.failed d w))

-- The messages that a worker has to handle: those of the batches before it has to stop.
abbrev pub handed_out : List Round → List StreamMessage
handed_out [] = []
handed_out (Round.shutdown ∷ rest) = []
handed_out (Round.batch ms ∷ rest) = ms ++ handed_out rest
handed_out (Round.cancelled d ∷ rest) = []
handed_out (Round.broken text true w ∷ rest) = []
handed_out (Round.broken text false true ∷ rest) = handed_out rest
handed_out (Round.broken text false false ∷ rest) = []

-- What it leaves of the script when it stops.
abbrev pub unread : List Round → List Round
unread [] = []
unread (Round.shutdown ∷ rest) = Round.shutdown ∷ rest
unread (Round.batch ms ∷ rest) = unread rest
unread (Round.cancelled d ∷ rest) = rest
unread (Round.broken text true w ∷ rest) = rest
unread (Round.broken text false true ∷ rest) = unread rest
unread (Round.broken text false false ∷ rest) = rest

-- Its reads and its waits, after others.
abbrev pub calls_after : WorkerConfig → String → List Call → List Round → List Call
calls_after config name calls [] = calls
calls_after config name calls (Round.shutdown ∷ rest) = calls
calls_after config name calls (Round.batch ms ∷ rest) =
    calls_after config name (calls ++ (Call.reads name config.read_count config.block ∷ [])) rest
calls_after config name calls (Round.cancelled d ∷ rest) =
    calls ++ (Call.reads name config.read_count config.block ∷ [])
calls_after config name calls (Round.broken text true w ∷ rest) =
    calls ++ (Call.reads name config.read_count config.block ∷ [])
calls_after config name calls (Round.broken text false true ∷ rest) =
    calls_after config name
      ((calls ++ (Call.reads name config.read_count config.block ∷ []))
        ++ (Call.waits config.read_error_backoff ∷ []))
      rest
calls_after config name calls (Round.broken text false false ∷ rest) =
    (calls ++ (Call.reads name config.read_count config.block ∷ []))
    ++ (Call.waits config.read_error_backoff ∷ [])

module _ {S : Type 0} where
  abbrev pub scripted_context : Context (Scripted S)
  scripted_context = record {
    is_done = λ w. let (b, p) = asked w.phase w.rounds in (b, record w { phase = p });
    wait_for_retry = λ delay w.
        let (b, p) = waited w.phase in
        (b, record w { phase = p; calls = w.calls ++ (Call.waits delay ∷ []) });
  }

  abbrev pub scripted_processor : EventProcessor S → EventProcessor (Scripted S)
  scripted_processor processor = record {
    process =
        λ event w. let (r, s) = processor.process event w.inner in (r, record w { inner = s });
  }

  -- Reads come from the script, acknowledgements go to the queue.
  abbrev pub scripted_queue : StreamQueue S → StreamQueue (Scripted S)
  scripted_queue queue = record {
    read_group = λ consumer count block w.
        let (r, (rest, p)) = taken w.rounds in
        (
          r,
          record w {
            rounds = rest;
            phase = p;
            calls = w.calls ++ (Call.reads consumer count block ∷ []);
          },
        );
    ack = λ redis_id w. let (r, s) = queue.ack redis_id w.inner in (r, record w { inner = s });
  }

  -- A pool's state with a script.
  abbrev pub scripted : List Round → List Call → Phase → PoolState S → PoolState (Scripted S)
  scripted rounds calls phase st = record {
    outside = record { rounds = rounds; calls = calls; phase = phase; inner = st.outside };
    metrics = st.metrics;
    simulator = st.simulator;
  }
