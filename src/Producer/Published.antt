-- ===== src/Producer/Published.antt =====
-- publishGenerated publishes the plan of its configuration, whatever the size of its batches.
use senior_backend_order_ing.Prelude.{
  ℕ, ◌+◌, ◌-◌, ◌^◌, ◌≤◌, ◌<◌, ◌≡◌, refl, ap, ◌∙◌, String, true, List, [], Result, ok, err, min,
  length, arith,
}
use senior_backend_order_ing.Prelude.Int.{ℤ, pos, pos_part}
use senior_backend_order_ing.Domain.{Status}
use senior_backend_order_ing.Producer.Config.{
  Floats, ProducerConfig, validate, duplicate_count, out_of_order_count, invalid_count,
}
use senior_backend_order_ing.Producer.Event.{
  GeneratedEvent, ProducerSummary, Sources, GenerateError,
}
use senior_backend_order_ing.Producer.Phases.{is_total}
use senior_backend_order_ing.Producer.Plan.{Script, plan_events, with_duplicates}
use senior_backend_order_ing.Producer.Counts.{all_scripts}
use senior_backend_order_ing.Producer.Emission.{emit_all}
use senior_backend_order_ing.Producer.Refinement.{initial}
use senior_backend_order_ing.Producer.Validated.{RatioLaw}
use senior_backend_order_ing.Producer.Totals.{finish, planned_summary, generate-emit_all}
use senior_backend_order_ing.Producer.Publish.{
  EventPublisher, PublishError, Progress, Buffer, initial_progress, publish_batch, flushed, flush,
  buffer, summarise, flush_rest, publish_generated,
}
use senior_backend_order_ing.Producer.Batches.{drained, drained-emit_all}

-- How publishGenerated ends when all events have been handed to the publisher.
abbrev pub conclude :
    {W X : Type 0}
    → ProducerSummary
    → Result (PublishError X) (Unit {0}) × Progress W
    → Result (GenerateError (PublishError X)) ProducerSummary × Progress W
conclude summary (ok u, p) = (ok (record summary { total_published = p.total_published }), p)
conclude summary (err e, p) = (err (GenerateError.emit_failed e), p)

module _ {W X : Type 0} (publisher : EventPublisher W X) where
  summarise-flushed :
      (summary : ProducerSummary) (batch : List GeneratedEvent)
      (r : Result (PublishError X) (Unit {0}) × Progress W)
      → summarise publisher summary (flushed publisher batch r) ≡ conclude summary r
  summarise-flushed summary batch (ok u, p) = refl
  summarise-flushed summary batch (err e, p) = refl

  flush_rest-finish :
      (total : ℤ) (summary : ProducerSummary)
      → is_total summary.total_published total ≡ true
      → (r : Result (PublishError X) (Unit {0}) × Buffer W)
      → flush_rest publisher (finish total summary r) ≡ conclude summary (drained publisher r)
  unfolding flush
  flush_rest-finish total summary all (ok u, b) =
      rw all (summarise-flushed summary b.batch (publish_batch publisher b.batch b.progress))
  flush_rest-finish total summary all (err e, b) = refl

  module _ {F : Type 0} (floats : Floats F) (sources : Sources) (c : ProducerConfig F)
      (payload : ℕ → Status → String)
      (marshals : (n : ℕ) (status : Status)
        → sources.marshal c.seed n status ≡ ok (payload n status))
      (total : ℕ) (total_of_c : c.total ≡ pos total) (small : total < 2 ^ 60)
      (law : RatioLaw floats total) (valid : validate floats c ≡ ok tt) where
    abbrev duplicates : ℕ
    duplicates = pos_part (duplicate_count floats c)

    abbrev scripts : List Script
    scripts =
        all_scripts (sources.draw c.seed) (pos_part (out_of_order_count floats c))
          (pos_part (invalid_count floats c)) (total - duplicates)

    all_published :
        (d : ℕ) → d ≤ total - d → is_total (total - d + min d (total - d)) c.total ≡ true
    all_published d enough = rw total_of_c (ground arith)

    -- For a validated configuration whose total fits into 60 bits, with ratios that count as documented
    -- and a payload encoder that does not fail: when there are enough unique events for the
    -- duplicates, the publisher is handed the plan's events and their duplicates in their order, up to
    -- its first error, and the summary has the number of published events.
    pub publish_generated-publish_batch :
        duplicates ≤ total - duplicates
        → (world : W)
        → publish_generated publisher floats sources c world
          ≡ conclude
              (planned_summary c
                (total - duplicates)
                duplicates
                (length scripts)
                (pos_part (out_of_order_count floats c))
                (pos_part (invalid_count floats c)))
              (publish_batch publisher
                (with_duplicates
                  (plan_events c.seed payload scripts 0 0)
                  (initial (pos duplicates)))
                (initial_progress world))
    unfolding publish_generated
    publish_generated-publish_batch enough world =
        let es =
          with_duplicates (plan_events c.seed payload scripts 0 0) (initial (pos duplicates)) in
        let summary =
          planned_summary c (total - duplicates) duplicates (length scripts)
            (pos_part (out_of_order_count floats c)) (pos_part (invalid_count floats c)) in
        let b : Buffer W = record { batch = []; progress = initial_progress world } in
        ap (flush_rest publisher) (
          generate-emit_all floats sources c (buffer publisher c.batch_size) payload marshals total
            total_of_c small law valid b)
        ∙ flush_rest-finish c.total summary (all_published duplicates enough)
            (emit_all (buffer publisher c.batch_size) es b)
        ∙ ap (conclude summary) (drained-emit_all publisher c.batch_size es b)
