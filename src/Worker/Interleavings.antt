-- ===== src/Worker/Interleavings.antt =====
-- What holds in every interleaving of the workers, the reclaimer and restarts.
use senior_backend_order_ing.Prelude.{
  ℕ, String, ◌≡◌, true, List, [], ◌∷◌, inl, inr, Result, ok, Result-cases, Bool-cases, map_err,
  ◌==◌, if◌then◌else◌,
}
use senior_backend_order_ing.Database.{Environment}
use senior_backend_order_ing.Repository.Transaction.{Error, Session}
use senior_backend_order_ing.Repository.Process.{ProcessResult, process_event_tx}
use senior_backend_order_ing.Repository.Invariant.{IsSound}
use senior_backend_order_ing.Repository.Calls.{KeepsJson, process_event_tx-Leaves}
use senior_backend_order_ing.Service.{process, ProcessError}
use senior_backend_order_ing.Queue.Message.{StreamMessage}
use senior_backend_order_ing.Worker.Interfaces.{StreamQueue, PendingQueue}
use senior_backend_order_ing.Worker.Pool.{WorkerConfig, ask_simulator}
use senior_backend_order_ing.Worker.Reclaimer.{ReclaimConfig}
use senior_backend_order_ing.Worker.Delivery.{
  World, processor, stream_queue, pending_queue, is_processed,
}
use senior_backend_order_ing.Worker.System.{
  Hand, System, Step, pool_processed, reclaimer_processed, worker_step, reclaimer_step, perform,
  run_steps,
}

abbrev AreProcessed : List StreamMessage → Session → Type 0
AreProcessed [] s = Unit {0}
AreProcessed (m ∷ ms) s = (is_processed m.event.event_id s ≡ true) × AreProcessed ms s

-- A message that is about to be acknowledged has been processed.
abbrev IsHonest : Hand → Session → Type 0
IsHonest (Hand.handling left) s = Unit {0}
IsHonest (Hand.acknowledging m left) s = is_processed m.event.event_id s ≡ true

-- The tables are sound, and the events of the messages that have been acknowledged, or are about to
-- be, are committed.
pub record IsSafeSystem (env : Environment) {Q : Type 0} (st : System (World Q)) : Type 0 where
  pub sound : IsSound env st.outside.session.durable
  pub acked : AreProcessed st.acked st.outside.session
  pub workers : (i : ℕ) → IsHonest (st.worker i) st.outside.session
  pub reclaimer : IsHonest st.reclaimer st.outside.session

-- What was processed still is.
abbrev Retains : Session → Session → Type 0
Retains s s' = (e : String) → is_processed e s ≡ true → is_processed e s' ≡ true

AreProcessed-Retains :
    (ms : List StreamMessage) (s s' : Session)
    → Retains s s'
    → AreProcessed ms s
    → AreProcessed ms s'
AreProcessed-Retains [] s s' keeps h = tt
AreProcessed-Retains (m ∷ ms) s s' keeps (first, h) =
    (keeps m.event.event_id first, AreProcessed-Retains ms s s' keeps h)

IsHonest-Retains :
    (hand : Hand) (s s' : Session) → Retains s s' → IsHonest hand s → IsHonest hand s'
IsHonest-Retains (Hand.handling left) s s' keeps h = tt
IsHonest-Retains (Hand.acknowledging m left) s s' keeps h = keeps m.event.event_id h

-- A worker's hand has changed, and the others' have not.
set-IsHonest :
    (i : ℕ) (hand : Hand) (worker : ℕ → Hand) (s : Session)
    → IsHonest hand s
    → ((j : ℕ) → IsHonest (worker j) s)
    → (j : ℕ) → IsHonest (if j == i then hand else worker j) s
set-IsHonest i hand worker s h others j = elim (Bool-cases (j == i)) [
  | inl same ↦ rw same h
  | inr other ↦ rw other (others j)
]

module _ (env : Environment) (json : KeepsJson env) {Q : Type 0} (queue : StreamQueue Q)
    (pending : PendingQueue Q) (config : WorkerConfig) (name : ℕ → String)
    (reclaim_config : ReclaimConfig) where
  -- The rest of the system after the world has moved on, with what it held.
  moved :
      (st : System (World Q)) (w : World Q)
      → IsSafeSystem env st
      → IsSound env w.session.durable
      → Retains st.outside.session w.session
      → IsSafeSystem env (record st { outside = w })
  moved st w h sound keeps = record {
    sound = sound;
    acked = AreProcessed-Retains st.acked st.outside.session w.session keeps h.acked;
    workers = λ i. IsHonest-Retains (st.worker i) st.outside.session w.session keeps (h.workers i);
    reclaimer = IsHonest-Retains st.reclaimer st.outside.session w.session keeps h.reclaimer;
  }

  module _ (message : StreamMessage) (left : List StreamMessage) (st : System (World Q))
      (r : Result Error ProcessResult) (s : Session) (h : IsSafeSystem env st)
      (sound : IsSound env s.durable) (keeps : Retains st.outside.session s)
      (stores : (x : ProcessResult) → r ≡ ok x → is_processed message.event.event_id s ≡ true) where
    abbrev wrapped : Result ProcessError ProcessResult
    wrapped = map_err (λ e. record { event_id = message.event.event_id; cause = e }) r

    pool_processed-IsSafeSystem :
        (i : ℕ)
        → IsSafeSystem env (
            pool_processed
              (processor env)
              (stream_queue queue)
              (pending_queue pending)
              config
              name
              reclaim_config
              i
              message
              left
              st
              (wrapped, record st.outside { session = s }))
    unfolding pool_processed
    pool_processed-IsSafeSystem i =
        let m = moved st (record st.outside { session = s }) h sound keeps in
        elim (Result-cases r) [
          | inl (x, done) ↦ rw done (elim (Bool-cases (ask_simulator st.simulator).0) [
            | inl skip ↦ rw skip (record {
              sound = m.sound;
              acked = m.acked;
              workers = set-IsHonest i (Hand.handling left) st.worker s tt m.workers;
              reclaimer = m.reclaimer;
            })
            | inr send ↦ rw send (record {
              sound = m.sound;
              acked = m.acked;
              workers =
                  set-IsHonest i (Hand.acknowledging message left) st.worker s (stores x done)
                    m.workers;
              reclaimer = m.reclaimer;
            })
          ])
          | inr (e, broken) ↦ rw broken (record {
            sound = m.sound;
            acked = m.acked;
            workers = set-IsHonest i (Hand.handling left) st.worker s tt m.workers;
            reclaimer = m.reclaimer;
          })
        ]

    reclaimer_processed-IsSafeSystem : IsSafeSystem env (
        reclaimer_processed
          (processor env)
          (stream_queue queue)
          (pending_queue pending)
          config
          name
          reclaim_config
          message
          left
          st
          (wrapped, record st.outside { session = s }))
    unfolding reclaimer_processed
    reclaimer_processed-IsSafeSystem =
        let m = moved st (record st.outside { session = s }) h sound keeps in
        elim (Result-cases r) [
          | inl (x, done) ↦ rw done (record {
            sound = m.sound;
            acked = m.acked;
            workers = m.workers;
            reclaimer = stores x done;
          })
          | inr (e, broken) ↦
              rw broken
                (record { sound = m.sound; acked = m.acked; workers = m.workers; reclaimer = tt })
        ]

  worker_step-IsSafeSystem :
      (i : ℕ) (hand : Hand) (st : System (World Q))
      → IsHonest hand st.outside.session
      → IsSafeSystem env st
      → IsSafeSystem env (
          worker_step
            (processor env)
            (stream_queue queue)
            (pending_queue pending)
            config
            name
            reclaim_config
            i
            hand
            st)
  unfolding worker_step process
  worker_step-IsSafeSystem i (Hand.handling []) st honest h =
      let (r, q) = queue.read_group (name i) config.read_count config.block st.outside.queue in
      record {
        sound = h.sound;
        acked = h.acked;
        workers = set-IsHonest i (Hand.handling _) st.worker st.outside.session tt h.workers;
        reclaimer = h.reclaimer;
      }
  worker_step-IsSafeSystem i (Hand.handling (message ∷ rest)) st honest h =
      let left = process_event_tx-Leaves env json message.event st.outside.session h.sound in
      let (r, s) = process_event_tx env message.event st.outside.session in
      pool_processed-IsSafeSystem message rest st r s h left.sound left.retains left.stores i
  worker_step-IsSafeSystem i (Hand.acknowledging message rest) st honest h = record {
    sound = h.sound;
    acked = (honest, h.acked);
    workers = set-IsHonest i (Hand.handling rest) st.worker st.outside.session tt h.workers;
    reclaimer = h.reclaimer;
  }

  reclaimer_step-IsSafeSystem :
      (hand : Hand) (st : System (World Q))
      → IsHonest hand st.outside.session
      → IsSafeSystem env st
      → IsSafeSystem env (
          reclaimer_step
            (processor env)
            (stream_queue queue)
            (pending_queue pending)
            config
            name
            reclaim_config
            hand
            st)
  unfolding reclaimer_step process
  reclaimer_step-IsSafeSystem (Hand.handling []) st honest h = record {
    sound = h.sound;
    acked = h.acked;
    workers = h.workers;
    reclaimer = tt;
  }
  reclaimer_step-IsSafeSystem (Hand.handling (message ∷ rest)) st honest h =
      let left = process_event_tx-Leaves env json message.event st.outside.session h.sound in
      let (r, s) = process_event_tx env message.event st.outside.session in
      reclaimer_processed-IsSafeSystem message rest st r s h left.sound left.retains left.stores
  reclaimer_step-IsSafeSystem (Hand.acknowledging message rest) st honest h = record {
    sound = h.sound;
    acked = (honest, h.acked);
    workers = h.workers;
    reclaimer = tt;
  }

  perform-IsSafeSystem :
      (step : Step) (st : System (World Q))
      → IsSafeSystem env st
      → IsSafeSystem env (
          perform
            (processor env)
            (stream_queue queue)
            (pending_queue pending)
            config
            name
            reclaim_config
            step
            st)
  unfolding perform
  perform-IsSafeSystem (Step.worker_moves i) st h =
      worker_step-IsSafeSystem i (st.worker i) st (h.workers i) h
  perform-IsSafeSystem Step.reclaimer_moves st h =
      reclaimer_step-IsSafeSystem st.reclaimer st h.reclaimer h
  perform-IsSafeSystem (Step.restarts simulator) st h = record {
    sound = h.sound;
    acked = h.acked;
    workers = λ i. tt;
    reclaimer = tt;
  }

  -- If the JSONB columns accept the empty object and keep what they accept, then from a safe system
  -- (sound tables, and the events of the messages that have been acknowledged, or are about to be, are
  -- committed) every interleaving of the steps of the workers and the reclaimer with restarts, whatever
  -- the driver, the queue and the failure simulation do, leads to a safe system.
  pub run_steps-IsSafeSystem :
      (steps : List Step) (st : System (World Q))
      → IsSafeSystem env st
      → IsSafeSystem env (
          run_steps
            (processor env)
            (stream_queue queue)
            (pending_queue pending)
            config
            name
            reclaim_config
            steps
            st)
  unfolding run_steps
  run_steps-IsSafeSystem [] st h = h
  run_steps-IsSafeSystem (step ∷ steps) st h =
      run_steps-IsSafeSystem steps
        (perform (processor env) (stream_queue queue) (pending_queue pending) config name
          reclaim_config step st)
        (perform-IsSafeSystem step st h)
