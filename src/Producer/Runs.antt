-- ===== src/Producer/Runs.antt =====
-- The producer command from its arguments to its output.
use Prim.Native.String.{◌++◌ as str_append}
use senior_backend_order_ing.Prelude.{
  ℕ, ◌-◌, ◌/◌, ◌^◌, ◌≤◌, ◌<◌, ◌≡◌, ap, ◌∙◌, String, List, [], ◌∷◌, ◌++◌, Result, ok, err, length,
  min,
}
use senior_backend_order_ing.Prelude.Int.{ℤ, pos, pos_part}
use senior_backend_order_ing.Prelude.Decimal.{decimal}
use senior_backend_order_ing.Domain.{Status}
use senior_backend_order_ing.Queue.Fields.{Formats}
use senior_backend_order_ing.Queue.Calls.{Client, ensure_group}
use senior_backend_order_ing.Producer.Config.{
  Floats, ProducerConfig, duplicate_count, out_of_order_count, invalid_count,
}
use senior_backend_order_ing.Producer.Event.{Sources, GenerateError}
use senior_backend_order_ing.Producer.Plan.{plan_events, with_duplicates}
use senior_backend_order_ing.Producer.Counts.{all_scripts}
use senior_backend_order_ing.Producer.Refinement.{initial}
use senior_backend_order_ing.Producer.Validated.{RatioLaw}
use senior_backend_order_ing.Producer.Totals.{planned_summary}
use senior_backend_order_ing.Producer.Published.{conclude, publish_generated-publish_batch}
use senior_backend_order_ing.Producer.Written.{
  Written, add_entries, reached, publish_batch-add_entries, progress_text,
  progress_lines-milestones,
}
use senior_backend_order_ing.Producer.Command.{
  DefaultRatios, RunError, parse_config, parse_config-validate, stream_publisher, print_summary,
  printed, after_group, run,
}

-- The lines of the summary after `n` entries, of which `unique` have an event ID of their own.
abbrev pub summary_text : {F : Type 0} → ProducerConfig F → ℕ → ℕ → ℕ → ℕ → ℕ → ℕ → List String
summary_text c unique duplicates orders late bad n =
    "producer_summary"
    ∷ str_append "total_requested=" (decimal c.total)
    ∷ str_append "total_published=" (decimal (pos n))
    ∷ str_append "unique_event_ids=" (decimal (pos unique))
    ∷ str_append "duplicate_events=" (decimal (pos (min duplicates unique)))
    ∷ str_append "unique_order_ids=" (decimal (pos orders))
    ∷ str_append "out_of_order_events=" (decimal (pos late))
    ∷ str_append "invalid_transition_events=" (decimal (pos bad))
    ∷ str_append "seed=" (decimal c.seed)
    ∷ str_append "redis_stream=" c.stream
    ∷ []

-- What is left of a command that has written to the stream: its result, its output and Redis.
abbrev pub reported :
    {R : Type 0}
    → ℤ
    → (ℕ → List String)
    → Written R
    → Result RunError (Unit {0}) × (List String × R)
reported total summary (ok u, (n, s)) = (ok tt, (progress_text total (n / 10000) ++ summary n, s))
reported total summary (err e, (n, s)) = (
  err (RunError.generate_failed (GenerateError.emit_failed e)),
  (progress_text total (n / 10000), s),
)

module _ {F R : Type 0} (floats : Floats F) (sources : Sources) (client : Client R) (f : Formats)
    (c : ProducerConfig F) where
  printed-reached :
      (unique duplicates orders late bad : ℕ) (w : Written R)
      → printed floats sources client f c
          (conclude (planned_summary c unique duplicates orders late bad) (reached client f w))
        ≡ reported c.total (summary_text c unique duplicates orders late bad) w
  unfolding print_summary
  printed-reached unique duplicates orders late bad (ok u, (n, s)) =
      let summary = summary_text c unique duplicates orders late bad n in
      ap (λ lines. (ok tt, (lines ++ summary, s))) (progress_lines-milestones c.total (n / 10000))
  printed-reached unique duplicates orders late bad (err e, (n, s)) =
      ap (λ lines. (err (RunError.generate_failed (GenerateError.emit_failed e)), (lines, s)))
        (progress_lines-milestones c.total (n / 10000))

module _ {F R X : Type 0} (floats : Floats F) (sources : Sources) (client : Client R) (f : Formats)
    (ratios : DefaultRatios F) (getenv : String → String)
    (parse : ProducerConfig F → List String → Result X (ProducerConfig F × List String))
    (payload : ℕ → Status → String) where
  -- For a configuration that parseConfig returns, whose total fits into 60 bits, with ratios that count
  -- as documented, a payload encoder that does not fail, no more duplicates than unique events, and a
  -- consumer group that EnsureGroup finds or creates: run sends one XADD with its fields for each event
  -- of the plan, and for its duplicate, in this order, up to the first event without fields or the first
  -- XADD that fails, which is the error of run with the event's ID and the number of entries that were
  -- added; and it prints a line of progress for each 10,000 entries and, without an error, the ten lines
  -- of the summary with the numbers of the plan.
  pub run-parse_config :
      (args : List String) (c : ProducerConfig F) (total : ℕ)
      → parse_config floats ratios getenv parse args ≡ ok c
      → c.total ≡ pos total
      → total < 2 ^ 60
      → RatioLaw floats total
      → ((n : ℕ) (status : Status) → sources.marshal c.seed n status ≡ ok (payload n status))
      → let duplicates = pos_part (duplicate_count floats c) in
        let late = pos_part (out_of_order_count floats c) in
        let bad = pos_part (invalid_count floats c) in
        let scripts = all_scripts (sources.draw c.seed) late bad (total - duplicates) in
        duplicates ≤ total - duplicates
        → (s s' : R) → ensure_group client s ≡ (ok tt, s')
        → run floats sources client f c s
          ≡ reported c.total
              (summary_text c (total - duplicates) duplicates (length scripts) late bad)
              (add_entries client f
                (with_duplicates
                  (plan_events c.seed payload scripts 0 0)
                  (initial (pos duplicates)))
                0
                s')
  unfolding run
  run-parse_config args c total parsed total_of_c small law marshals enough s s' ensured =
      let duplicates = pos_part (duplicate_count floats c) in
      let late = pos_part (out_of_order_count floats c) in
      let bad = pos_part (invalid_count floats c) in
      let scripts = all_scripts (sources.draw c.seed) late bad (total - duplicates) in
      let events =
        with_duplicates (plan_events c.seed payload scripts 0 0) (initial (pos duplicates)) in
      let summary = planned_summary c (total - duplicates) duplicates (length scripts) late bad in
      ap (after_group floats sources client f c) ensured
      ∙ ap (printed floats sources client f c) (
          publish_generated-publish_batch (stream_publisher floats sources client f c) floats
            sources c payload marshals total total_of_c small law
            (parse_config-validate floats ratios getenv parse args c parsed) enough s')
      ∙ ap (λ r. printed floats sources client f c (conclude summary r))
          (publish_batch-add_entries client f events 0 s')
      ∙ printed-reached floats sources client f c (total - duplicates) duplicates (length scripts)
          late bad (add_entries client f events 0 s')
