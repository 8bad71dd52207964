-- ===== src/Worker/Delivery.antt =====
-- Messages are acknowledged only after their events are committed. The processor is that of
-- internal/service over internal/repository; the queue is any queue, with a state of its own.
use senior_backend_order_ing.Prelude.{
  String, ◌≡◌, refl, Bool, true, false, inl, inr, Result, ok, err, Result-cases, map_err,
}
use senior_backend_order_ing.Database.{Environment}
use senior_backend_order_ing.Database.Table.{has}
use senior_backend_order_ing.Database.Statements.{processed_key}
use senior_backend_order_ing.Repository.Transaction.{Error, Session}
use senior_backend_order_ing.Repository.Process.{ProcessResult, process_event_tx}
use senior_backend_order_ing.Repository.Invariant.{IsSound}
use senior_backend_order_ing.Repository.Calls.{KeepsJson, process_event_tx-Leaves}
use senior_backend_order_ing.Service.{OrderRepository, process}
use senior_backend_order_ing.Queue.Message.{StreamMessage}
use senior_backend_order_ing.Worker.Interfaces.{
  QueueError, EventProcessor, StreamQueue, PendingQueue, Handled, with_metrics,
}
use senior_backend_order_ing.Monitoring.Collector.{record_result, record_recovered}
use senior_backend_order_ing.Worker.Pool
use senior_backend_order_ing.Worker.Pool.{PoolState}
use senior_backend_order_ing.Worker.Reclaimer
use senior_backend_order_ing.Worker.Reclaimer.{ReclaimerState}

-- The database server and the queue, side by side.
pub record World (Q : Type 0) : Type 0 where
  pub session : Session
  pub queue : Q

module _ (env : Environment) {Q : Type 0} where
  -- NewProcessor(NewPostgresOrderRepository(pool))
  abbrev pub repository : OrderRepository (World Q)
  repository = record {
    process_event_tx = λ event w.
        let (result, session) = process_event_tx env event w.session in
        (result, record w { session = session });
  }

  abbrev pub processor : EventProcessor (World Q)
  processor = record { process = process repository }

-- A queue acts on its own state.
abbrev pub acks :
    {Q : Type 0}
    → (String → Q → Result QueueError (Unit {0}) × Q)
    → String
    → World Q
    → Result QueueError (Unit {0}) × World Q
acks ack redis_id w = let (r, q) = ack redis_id w.queue in (r, record w { queue = q })

abbrev pub stream_queue : {Q : Type 0} → StreamQueue Q → StreamQueue (World Q)
stream_queue queue = record {
  read_group = λ consumer count block w.
      let (r, q) = queue.read_group consumer count block w.queue in (r, record w { queue = q });
  ack = acks queue.ack;
}

abbrev pub pending_queue : {Q : Type 0} → PendingQueue Q → PendingQueue (World Q)
pending_queue queue = record {
  claim_pending = λ consumer min_idle count w.
      let (r, q) = queue.claim_pending consumer min_idle count w.queue in
      (r, record w { queue = q });
  ack = acks queue.ack;
}

abbrev pub is_processed : String → Session → Bool
is_processed e s = has processed_key e s.durable.processed

-- How the handling of a message may end, from one state of the world to another: an acknowledgement
-- is sent to the queue only if the event is committed, and otherwise the queue is left alone.
abbrev pub Allows : {Q : Type 0} → StreamMessage → World Q → Handled → World Q → Type 0
Allows message before Handled.process_failed after = after.queue ≡ before.queue
Allows message before Handled.ack_skipped after =
    (after.queue ≡ before.queue) × (is_processed message.event.event_id after.session ≡ true)
Allows message before Handled.ack_failed after =
    is_processed message.event.event_id after.session ≡ true
Allows message before Handled.acked after = is_processed message.event.event_id after.session ≡ true

-- The invariant of the tables holds afterwards, what was processed still is, and `Allows` holds.
pub record IsSafe (env : Environment) {Q : Type 0} (message : StreamMessage) (before : World Q)
    (handled : Handled) (after : World Q) : Type 0 where
  pub sound : IsSound env after.session.durable
  pub retains :
      (e : String) → is_processed e before.session ≡ true → is_processed e after.session ≡ true
  pub allowed : Allows message before handled after

-- The rest of a handling, once the event is committed and the session is `s`.
module _ (env : Environment) {Q : Type 0} (message : StreamMessage) (before : World Q) (s : Session)
    (sound : IsSound env s.durable)
    (retains : (e : String) → is_processed e before.session ≡ true → is_processed e s ≡ true)
    (stored : is_processed message.event.event_id s ≡ true) where
  pool_ack-IsSafe :
      (r : Result QueueError (Unit {0})) (q : Q) (st : PoolState (World Q))
      → let (handled, st') = Pool.after_ack st (r, record { session = s; queue = q }) in
        IsSafe env message before handled st'.outside
  unfolding Pool.after_ack
  pool_ack-IsSafe (ok u) q st = record { sound = sound; retains = retains; allowed = stored }
  pool_ack-IsSafe (err e) q st = record { sound = sound; retains = retains; allowed = stored }

  pool_acknowledge-IsSafe :
      (queue : StreamQueue Q) (skip : Bool) (st : PoolState (World Q))
      → st.outside ≡ record before { session = s }
      → let (handled, st') = Pool.acknowledge (stream_queue queue) message.redis_id skip st in
        IsSafe env message before handled st'.outside
  unfolding Pool.acknowledge
  pool_acknowledge-IsSafe queue true st at = record {
    sound = rw at sound;
    retains = rw at retains;
    allowed = rw at (refl, stored);
  }
  pool_acknowledge-IsSafe queue false st at =
      rw at (let (r, q) = queue.ack message.redis_id before.queue in pool_ack-IsSafe r q st)

  reclaimer_ack-IsSafe :
      (r : Result QueueError (Unit {0})) (q : Q) (st : ReclaimerState (World Q))
      → let (handled, st') = Reclaimer.after_ack st (r, record { session = s; queue = q }) in
        IsSafe env message before handled st'.outside
  unfolding Reclaimer.after_ack
  reclaimer_ack-IsSafe (ok u) q st = record { sound = sound; retains = retains; allowed = stored }
  reclaimer_ack-IsSafe (err e) q st = record { sound = sound; retains = retains; allowed = stored }

module _ (env : Environment) (json : KeepsJson env) {Q : Type 0} where
  module _ (message : StreamMessage) (r : Result Error ProcessResult) (s : Session)
      (sound : IsSound env s.durable)
      (stores : (x : ProcessResult) → r ≡ ok x → is_processed message.event.event_id s ≡ true) where
    pool_process-IsSafe :
        (queue : StreamQueue Q) (st : PoolState (World Q))
        → ((e : String) → is_processed e st.outside.session ≡ true → is_processed e s ≡ true)
        → let (handled, st') = Pool.after_process (stream_queue queue) message st (
          map_err (λ e. record { event_id = message.event.event_id; cause = e }) r,
          record st.outside { session = s },
        ) in
          IsSafe env message st.outside handled st'.outside
    unfolding Pool.after_process
    pool_process-IsSafe queue st retains = elim (Result-cases r) [
      | inl (x, done) ↦ rw done (
          pool_acknowledge-IsSafe env message st.outside s sound retains (stores x done) queue _ _
            refl)
      | inr (e, broken) ↦ rw broken (record { sound = sound; retains = retains; allowed = refl })
    ]

    reclaimer_process-IsSafe :
        (queue : PendingQueue Q) (st : ReclaimerState (World Q))
        → ((e : String) → is_processed e st.outside.session ≡ true → is_processed e s ≡ true)
        → let (handled, st') = Reclaimer.after_process (pending_queue queue) message st (
          map_err (λ e. record { event_id = message.event.event_id; cause = e }) r,
          record st.outside { session = s },
        ) in
          IsSafe env message st.outside handled st'.outside
    unfolding Reclaimer.after_process
    reclaimer_process-IsSafe queue st retains = elim (Result-cases r) [
      | inl (x, done) ↦ rw done (
          let (answer, q) = queue.ack message.redis_id st.outside.queue in
          reclaimer_ack-IsSafe env message st.outside s sound retains (stores x done) answer q
            (record {
              outside = record st.outside { session = s };
              metrics = with_metrics (λ c. record_recovered (record_result x c)) st.metrics;
            }))
      | inr (e, broken) ↦ rw broken (record { sound = sound; retains = retains; allowed = refl })
    ]

  -- If the JSONB columns accept the empty object and keep what they accept, then from sound tables
  -- a worker of the pool handles a message safely, whatever the driver, the queue and the failure
  -- simulation do: the committed tables satisfy the invariant, what was processed still is, and an
  -- acknowledgement is sent only if the event of the message is committed. If processing fails, or
  -- the acknowledgement is skipped, the queue is left alone.
  pub pool_message-IsSafe :
      (queue : StreamQueue Q) (message : StreamMessage) (st : PoolState (World Q))
      → IsSound env st.outside.session.durable
      → let (handled, st') = Pool.handle_message (processor env) (stream_queue queue) message st in
        IsSafe env message st.outside handled st'.outside
  unfolding Pool.handle_message process
  pool_message-IsSafe queue message st h =
      let left = process_event_tx-Leaves env json message.event st.outside.session h in
      let (r, s) = process_event_tx env message.event st.outside.session in
      pool_process-IsSafe message r s left.sound left.stores queue st left.retains

  -- The reclaimer handles a message as safely.
  pub reclaimer_message-IsSafe :
      (queue : PendingQueue Q) (message : StreamMessage) (st : ReclaimerState (World Q))
      → IsSound env st.outside.session.durable
      → let (handled, st') =
          Reclaimer.handle_message (processor env) (pending_queue queue) message st in
        IsSafe env message st.outside handled st'.outside
  unfolding Reclaimer.handle_message process
  reclaimer_message-IsSafe queue message st h =
      let left = process_event_tx-Leaves env json message.event st.outside.session h in
      let (r, s) = process_event_tx env message.event st.outside.session in
      reclaimer_process-IsSafe message r s left.sound left.stores queue st left.retains
