-- ===== src/Producer/Publish.antt =====
-- publishGenerated of cmd/producer/generator.go: events are buffered, and published in batches, with a
-- line of progress after each 10,000 events.
use senior_backend_order_ing.Prelude.{
  ℕ, ◌+◌, String, List, [], ◌∷◌, ◌++◌, Result, ok, err, leb, if◌then◌else◌, length,
}
use senior_backend_order_ing.Prelude.Int.{ℤ, pos, ltb_ℤ}
use senior_backend_order_ing.Domain.{OrderEvent}
use senior_backend_order_ing.Producer.Config.{Floats, ProducerConfig}
use senior_backend_order_ing.Producer.Event.{
  GeneratedEvent, ProducerSummary, Sources, GenerateError,
}
use senior_backend_order_ing.Producer.Phases.{generate}

-- eventPublisher, over a world `W`, with errors `X`.
pub record EventPublisher (W X : Type 0) : Type 0 where
  pub publish : OrderEvent → W → Result X String × W

-- The error of flush: the event's ID, and how many events have been published before it.
pub data PublishError (X : Type 0) : Type 0 where
  publish_event : String → ℕ → X → PublishError X

-- What publishGenerated has done: `output` holds the numbers of the lines of progress.
pub record Progress (W : Type 0) : Type 0 where
  pub total_published : ℕ
  pub next_progress : ℕ
  pub output : List ℕ
  pub world : W

-- The variables that the two closures of publishGenerated share.
pub record Buffer (W : Type 0) : Type 0 where
  pub batch : List GeneratedEvent
  pub progress : Progress W

abbrev pub initial_progress : {W : Type 0} → W → Progress W
initial_progress world = record {
  total_published = 0;
  next_progress = 10000;
  output = [];
  world = world;
}

-- `totalPublished++` and the line of progress.
unfoldable pub count_published : {W : Type 0} → Progress W → Progress W
count_published p =
    let n = p.total_published + 1 in
    if leb p.next_progress n
    then record p {
      total_published = n;
      next_progress = p.next_progress + 10000;
      output = p.output ++ (n ∷ []);
    }
    else record p { total_published = n }

module _ {W X : Type 0} (publisher : EventPublisher W X) where
  abbrev pub published :
      GeneratedEvent
      → Progress W
      → Result X String × W
      → Result (PublishError X) (Unit {0}) × Progress W
  published generated p (ok id, world) = (ok tt, count_published (record p { world = world }))
  published generated p (err e, world) = (
    err (PublishError.publish_event generated.event.event_id p.total_published e),
    record p { world = world },
  )

  -- The body of flush's loop.
  unfoldable pub publish_one :
      GeneratedEvent → Progress W → Result (PublishError X) (Unit {0}) × Progress W
  unfolding count_published
  publish_one generated p = published generated p (publisher.publish generated.event p.world)

  abbrev pub publish_next :
      (Progress W → Result (PublishError X) (Unit {0}) × Progress W)
      → Result (PublishError X) (Unit {0}) × Progress W
      → Result (PublishError X) (Unit {0}) × Progress W
  publish_next rest (ok u, p) = rest p
  publish_next rest (err e, p) = (err e, p)

  -- flush's loop over the batch.
  unfoldable pub publish_batch :
      List GeneratedEvent → Progress W → Result (PublishError X) (Unit {0}) × Progress W
  unfolding publish_one
  publish_batch [] p = (ok tt, p)
  publish_batch (generated ∷ batch) p = publish_next (publish_batch batch) (publish_one generated p)

  abbrev pub flushed :
      List GeneratedEvent
      → Result (PublishError X) (Unit {0}) × Progress W
      → Result (PublishError X) (Unit {0}) × Buffer W
  flushed batch (ok u, p) = (ok u, record { batch = []; progress = p })
  flushed batch (err e, p) = (err e, record { batch = batch; progress = p })

  unfoldable pub flush : Buffer W → Result (PublishError X) (Unit {0}) × Buffer W
  flush b = flushed b.batch (publish_batch b.batch b.progress)

  -- The callback that generate is given.
  unfoldable pub buffer :
      ℤ → GeneratedEvent → Buffer W → Result (PublishError X) (Unit {0}) × Buffer W
  buffer batch_size event b =
      let b' = record b { batch = b.batch ++ (event ∷ []) } in
      if ltb_ℤ (pos (length b'.batch)) batch_size then (ok tt, b') else flush b'

  -- The end of publishGenerated.
  abbrev pub summarise :
      ProducerSummary
      → Result (PublishError X) (Unit {0}) × Buffer W
      → Result (GenerateError (PublishError X)) ProducerSummary × Progress W
  summarise summary (ok u, b) =
      (ok (record summary { total_published = b.progress.total_published }), b.progress)
  summarise summary (err e, b) = (err (GenerateError.emit_failed e), b.progress)

  abbrev pub flush_rest :
      Result (GenerateError (PublishError X)) ProducerSummary × Buffer W
      → Result (GenerateError (PublishError X)) ProducerSummary × Progress W
  flush_rest (ok summary, b) = summarise summary (flush b)
  flush_rest (err e, b) = (err e, b.progress)

  unfoldable pub publish_generated :
      {F : Type 0}
      → Floats F
      → Sources
      → ProducerConfig F
      → W
      → Result (GenerateError (PublishError X)) ProducerSummary × Progress W
  publish_generated floats sources c world = flush_rest (
      generate floats sources c (buffer c.batch_size)
        (record { batch = []; progress = initial_progress world }))
