-- ===== src/Worker/Runs.antt =====
-- Batches of messages, and turns of the reclaimer.
use senior_backend_order_ing.Prelude.{String, ◌≡◌, ◌≢◌, refl, true, List, [], ◌∷◌, Result, ok, err}
use senior_backend_order_ing.Database.{Environment}
use senior_backend_order_ing.Repository.Transaction.{Session}
use senior_backend_order_ing.Repository.Invariant.{IsSound}
use senior_backend_order_ing.Repository.Calls.{KeepsJson}
use senior_backend_order_ing.Queue.Message.{StreamMessage}
use senior_backend_order_ing.Worker.Interfaces.{QueueError, StreamQueue, PendingQueue, Handled}
use senior_backend_order_ing.Worker.Pool
use senior_backend_order_ing.Worker.Pool.{PoolState, WorkerConfig}
use senior_backend_order_ing.Worker.Reclaimer
use senior_backend_order_ing.Worker.Reclaimer.{ReclaimerState, ReclaimConfig}
use senior_backend_order_ing.Worker.Delivery.{
  World, processor, stream_queue, pending_queue, is_processed, Allows, IsSafe, pool_message-IsSafe,
  reclaimer_message-IsSafe,
}

-- The event of every message whose processing did not fail, and so of every message that was
-- acknowledged, is committed.
abbrev pub AreCommitted : List StreamMessage → List Handled → Session → Type 0
AreCommitted [] [] s = Unit
AreCommitted (m ∷ ms) (h ∷ hs) s =
    (h ≢ Handled.process_failed → is_processed m.event.event_id s ≡ true) × AreCommitted ms hs s
AreCommitted _ _ s = ⊥

-- The messages of a claim; a claim that fails hands out none.
abbrev pub claimed : Result QueueError (List StreamMessage) → List StreamMessage
claimed (ok messages) = messages
claimed (err e) = []

pub record IsSafeBatch (env : Environment) {Q : Type 0} (messages : List StreamMessage)
    (before : World Q) (handled : List Handled) (after : World Q) : Type 0 where
  pub sound : IsSound env after.session.durable
  pub retains :
      (e : String) → is_processed e before.session ≡ true → is_processed e after.session ≡ true
  pub committed : AreCommitted messages handled after.session

module _ (env : Environment) {Q : Type 0} where
  committed_of_Allows :
      (message : StreamMessage) (before after : World Q) (handled : Handled)
      → Allows message before handled after
      → handled ≢ Handled.process_failed
      → is_processed message.event.event_id after.session ≡ true
  committed_of_Allows message before after Handled.process_failed h ne = absurd (ne refl)
  committed_of_Allows message before after Handled.ack_skipped h ne = h.1
  committed_of_Allows message before after Handled.ack_failed h ne = h
  committed_of_Allows message before after Handled.acked h ne = h

  -- A message that is handled safely, and then a safe batch, are a safe batch.
  IsSafeBatch-cons :
      (message : StreamMessage) (messages : List StreamMessage) (before between after : World Q)
      (handled : Handled) (others : List Handled)
      → IsSafe env message before handled between
      → IsSafeBatch env messages between others after
      → IsSafeBatch env (message ∷ messages) before (handled ∷ others) after
  IsSafeBatch-cons message messages before between after handled others one rest = record {
    sound = rest.sound;
    retains = λ e was. rest.retains e (one.retains e was);
    committed = (
      λ ne.
          rest.retains message.event.event_id
            (committed_of_Allows message before between handled one.allowed ne),
      rest.committed,
    );
  }

module _ (env : Environment) (json : KeepsJson env) {Q : Type 0} where
  -- If the JSONB columns accept the empty object and keep what they accept, then from sound tables
  -- the batch of one read is handled safely: the tables stay sound, what was processed still is,
  -- and every message whose processing did not fail, among them every acknowledged one, has its
  -- event committed when the batch is done.
  pub pool_messages-IsSafeBatch :
      (queue : StreamQueue Q) (messages : List StreamMessage) (st : PoolState (World Q))
      → IsSound env st.outside.session.durable
      → let (handled, st') =
          Pool.handle_messages (processor env) (stream_queue queue) messages st in
        IsSafeBatch env messages st.outside handled st'.outside
  unfolding Pool.handle_messages
  pool_messages-IsSafeBatch queue [] st h = record {
    sound = h;
    retains = λ e was. was;
    committed = tt;
  }
  pool_messages-IsSafeBatch queue (message ∷ rest) st h =
      let one = pool_message-IsSafe env json queue message st h in
      let (handled, st') = Pool.handle_message (processor env) (stream_queue queue) message st in
      IsSafeBatch-cons env message rest st.outside st'.outside _ handled _ one
        (pool_messages-IsSafeBatch queue rest st' one.sound)

  reclaimer_messages-IsSafeBatch :
      (queue : PendingQueue Q) (messages : List StreamMessage) (st : ReclaimerState (World Q))
      → IsSound env st.outside.session.durable
      → let (handled, st') =
          Reclaimer.handle_messages (processor env) (pending_queue queue) messages st in
        IsSafeBatch env messages st.outside handled st'.outside
  unfolding Reclaimer.handle_messages
  reclaimer_messages-IsSafeBatch queue [] st h = record {
    sound = h;
    retains = λ e was. was;
    committed = tt;
  }
  reclaimer_messages-IsSafeBatch queue (message ∷ rest) st h =
      let one = reclaimer_message-IsSafe env json queue message st h in
      let (handled, st') =
        Reclaimer.handle_message (processor env) (pending_queue queue) message st in
      IsSafeBatch-cons env message rest st.outside st'.outside _ handled _ one
        (reclaimer_messages-IsSafeBatch queue rest st' one.sound)

  after_claim-IsSafeBatch :
      (queue : PendingQueue Q) (r : Result QueueError (List StreamMessage)) (q : Q)
      (st : ReclaimerState (World Q))
      → IsSound env st.outside.session.durable
      → let (handled, st') =
          Reclaimer.after_claim
            (processor env)
            (pending_queue queue)
            st
            (r, record st.outside { queue = q }) in
        IsSafeBatch env (claimed r) st.outside handled st'.outside
  unfolding Reclaimer.after_claim
  after_claim-IsSafeBatch queue (err e) q st h = record {
    sound = h;
    retains = λ e was. was;
    committed = tt;
  }
  after_claim-IsSafeBatch queue (ok messages) q st h =
      let safe =
        reclaimer_messages-IsSafeBatch queue messages
          (record st { outside = record st.outside { queue = q } }) h in
      record { sound = safe.sound; retains = safe.retains; committed = safe.committed }

  -- If the JSONB columns accept the empty object and keep what they accept, then from sound tables
  -- a turn of the reclaimer is safe: the tables stay sound, what was processed still is, and of the
  -- messages that it claims, every one whose processing did not fail has its event committed at the
  -- end of the turn.
  pub reclaim-IsSafeBatch :
      (queue : PendingQueue Q) (config : ReclaimConfig) (st : ReclaimerState (World Q))
      → IsSound env st.outside.session.durable
      → let (r, q) =
          queue.claim_pending config.consumer_name config.min_idle config.count st.outside.queue in
        let (handled, st') = Reclaimer.reclaim (processor env) (pending_queue queue) config st in
        IsSafeBatch env (claimed r) st.outside handled st'.outside
  unfolding Reclaimer.reclaim
  reclaim-IsSafeBatch queue config st h =
      let (r, q) =
        queue.claim_pending config.consumer_name config.min_idle config.count st.outside.queue in
      after_claim-IsSafeBatch queue r q st h
