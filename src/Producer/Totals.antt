-- ===== src/Producer/Totals.antt =====
-- generate of generator.go as a whole: the plan of a validated configuration, and its summary.
use senior_backend_order_ing.Prelude.{
  ℕ, ◌+◌, ◌-◌, ◌*◌, ◌^◌, ◌≤◌, ◌<◌, ◌≡◌, refl, ap, sym, subst, ◌∙◌, String, false, List, Result, ok,
  err, leb, if◌then◌else◌, length, min, arith,
}
use senior_backend_order_ing.Prelude.Int.{ℤ, pos, pos_part, ◌-ℤ◌, sub_pos}
use senior_backend_order_ing.Domain.{Status}
use senior_backend_order_ing.Producer.Config.{
  Floats, ProducerConfig, is_out_of_range, ratio_count, validate, duplicate_count,
  out_of_order_count, invalid_count,
}
use senior_backend_order_ing.Producer.Event.{
  GeneratedEvent, ProducerSummary, EventGenerator, Sources, GenerateError,
}
use senior_backend_order_ing.Producer.Phases.{
  generate_phases, start, is_total, check_total, validated, generate,
}
use senior_backend_order_ing.Producer.Plan.{Script, plan_events, with_duplicates, tally_all}
use senior_backend_order_ing.Producer.Counts.{all_scripts, all_scripts_counts, late_total}
use senior_backend_order_ing.Producer.Tallies.{late_events, invalid_events, tally_all_counts}
use senior_backend_order_ing.Producer.PlanCounts.{plan_events_counts}
use senior_backend_order_ing.Producer.Follows.{Position, build, Ends}
use senior_backend_order_ing.Producer.Emission.{emit_all}
use senior_backend_order_ing.Producer.Validated.{RatioLaw, validate_parts, same_counts}
use senior_backend_order_ing.Producer.Refinement.{initial, counts_fit, phases-RunsAt}

-- How generate ends when the callback has been called for all events.
abbrev pub finish :
    {E S : Type 0}
    → ℤ
    → ProducerSummary
    → Result E (Unit {0}) × S
    → Result (GenerateError E) ProducerSummary × S
finish total summary (ok u, s) = (
  (if is_total summary.total_published total
      then ok summary
      else err (GenerateError.wrong_total summary.total_published total)),
  s,
)
finish total summary (err e, s) = (err (GenerateError.emit_failed e), s)

-- The summary of a run with these numbers of unique events, duplicates to come, orders, and flagged
-- events.
abbrev pub planned_summary : {F : Type 0} → ProducerConfig F → ℕ → ℕ → ℕ → ℕ → ℕ → ProducerSummary
planned_summary c unique duplicates orders late bad = record {
  total_requested = c.total;
  total_published = unique + min duplicates unique;
  unique_event_ids = unique;
  duplicate_events = min duplicates unique;
  unique_order_ids = orders;
  out_of_order_events = late;
  invalid_transition_events = bad;
  seed = c.seed;
  redis_stream = c.stream;
}

check_total-Ends :
    {E S : Type 0} (emit : GeneratedEvent → S → Result E (Unit {0}) × S) (requested seed : ℤ)
    (stream : String) (total : ℤ) (g : EventGenerator) (r : Result E (Unit {0}) × S)
    (out : Result (GenerateError E) (Unit {0}) × (EventGenerator × S))
    → Ends emit requested seed stream tt g r out
    → check_total total out ≡ finish total g.summary r
unfolding check_total
check_total-Ends emit requested seed stream total g (ok u, s) out h = rw h refl
check_total-Ends emit requested seed stream total g (err e, s) (ok u, w) h = absurd (cc h.0)
check_total-Ends emit requested seed stream total g (err e, s) (err x, (g', s')) h =
    let same : x ≡ GenerateError.emit_failed e = cc h.0 in rw (same, h.1) refl

module _ {E S F : Type 0} (floats : Floats F) (sources : Sources) (c : ProducerConfig F)
    (emit : GeneratedEvent → S → Result E (Unit {0}) × S) (payload : ℕ → Status → String)
    (marshals : (n : ℕ) (status : Status) → sources.marshal c.seed n status ≡ ok (payload n status))
    (total : ℕ) (total_of_c : c.total ≡ pos total) (small : total < 2 ^ 60)
    (law : RatioLaw floats total) (valid : validate floats c ≡ ok tt) where
  abbrev duplicates : ℕ
  duplicates = pos_part (duplicate_count floats c)

  abbrev scripts : List Script
  scripts =
      all_scripts (sources.draw c.seed) (pos_part (out_of_order_count floats c))
        (pos_part (invalid_count floats c)) (total - duplicates)

  abbrev events : List GeneratedEvent
  events = plan_events c.seed payload scripts 0 0

  -- generate's phases depend on the counts alone.
  same_phases :
      (d d' late late' bad bad' target target' : ℤ) (s : S)
      → d ≡ d'
      → late ≡ late'
      → bad ≡ bad'
      → target ≡ target'
      → check_total c.total (generate_phases sources c.seed emit late bad target (start d c, s))
        ≡ check_total c.total
            (generate_phases sources c.seed emit late' bad' target' (start d' c, s))
  same_phases d d' late late' bad bad' target target' s p q r t = cc (p, q, r, t)

  counted :
      (ratio : F)
      → is_out_of_range floats ratio ≡ false
      → let n = pos_part (ratio_count floats c.total ratio) in
        (ratio_count floats c.total ratio ≡ pos n) × (n ≤ total)
  counted ratio in_range =
      subst
        (λ t.
          (ratio_count floats t ratio ≡ pos (pos_part (ratio_count floats t ratio)))
          × (pos_part (ratio_count floats t ratio) ≤ total))
        (sym total_of_c) (law.within ratio in_range)

  -- The summary of the generator after the plan.
  summary-tally_all :
      (d late bad n : ℕ) (q : Position)
      → d < 2 ^ 60
      → let scripts' = all_scripts (sources.draw c.seed) late bad n in
        late_total late + 4 * bad ≤ n
        → q.orders ≡ length scripts'
        → (build c.total c.seed c.stream q
            (tally_all (plan_events c.seed payload scripts' 0 0) (initial (pos d)))).summary
          ≡ planned_summary c n d (length scripts') late bad
  summary-tally_all d late bad n q small_d fits orders =
      let scripts' = all_scripts (sources.draw c.seed) late bad n in
      let es = plan_events c.seed payload scripts' 0 0 in
      let (size, lates, bads) = all_scripts_counts (sources.draw c.seed) late bad n fits in
      let (size', lates', bads') = plan_events_counts c.seed payload scripts' 0 0 in
      let tallied = tally_all_counts es (initial (pos d)) d refl (omega arith) in
      let total_size : 0 + length es + min d (length es) ≡ n + min d n =
        rw (size', size) (omega arith) in
      let sized : 0 + length es ≡ n = omega arith in
      let repeated : 0 + min d (length es) ≡ min d n = rw (size', size) (omega arith) in
      let late' : 0 + late_events es ≡ late = omega arith in
      let bad' : 0 + invalid_events es ≡ bad = omega arith in
      rw (tallied, total_size, sized, repeated, late', bad', orders) refl

  phases-finish :
      (d late bad : ℕ)
      → d ≤ total
      → late_total late + 4 * bad ≤ total - d
      → let scripts' = all_scripts (sources.draw c.seed) late bad (total - d) in
        (s : S)
        → check_total c.total (
            generate_phases sources c.seed emit
              (pos late)
              (pos bad)
              (pos (total - d))
              (start (pos d) c, s))
          ≡ finish c.total (planned_summary c (total - d) d (length scripts') late bad) (
              emit_all emit
                (with_duplicates (plan_events c.seed payload scripts' 0 0) (initial (pos d)))
                s)
  phases-finish d late bad le fits s =
      let (q, orders, run) =
        phases-RunsAt emit c.total c.seed c.stream sources payload marshals late bad (total - d)
          (initial (pos d)) refl (omega arith) fits in
      let scripts' = all_scripts (sources.draw c.seed) late bad (total - d) in
      let es = plan_events c.seed payload scripts' 0 0 in
      let ends =
        check_total-Ends emit c.total c.seed c.stream c.total
          (build c.total c.seed c.stream q (tally_all es (initial (pos d))))
          (emit_all emit (with_duplicates es (initial (pos d))) s) _ (run s) in
      rw (summary-tally_all d late bad (total - d) q (omega arith) fits orders) at ends

  -- The counts of a validated configuration fit into its unique events.
  pub counts_fit_total :
      late_total (pos_part (out_of_order_count floats c)) + 4 * pos_part (invalid_count floats c)
      ≤ total - duplicates
  counts_fit_total =
      let (range_d, range_l, range_b, counts) = validate_parts floats c valid in
      let (count_d, d) = counted c.duplicate_ratio range_d in
      let (count_l, l) = counted c.out_of_order_ratio range_l in
      let (count_b, b) = counted c.invalid_ratio range_b in
      counts_fit total duplicates (pos_part (out_of_order_count floats c))
        (pos_part (invalid_count floats c)) small d l b
        (sym (same_counts _ _ _ _ _ _ _ _ total_of_c count_d count_l count_b) ∙ counts)

  -- For a validated configuration whose total fits into 60 bits, with ratios that count as documented
  -- and a payload encoder that does not fail: generate calls the callback for the events of the plan,
  -- each followed by its duplicate while duplicates are to come, up to the callback's first error,
  -- which it returns; after the last event it returns the summary of the plan if that has `total`
  -- events, and otherwise the error on the number of events.
  pub generate-emit_all :
      (s : S)
      → generate floats sources c emit s
        ≡ finish c.total
            (planned_summary c
              (total - duplicates)
              duplicates
              (length scripts)
              (pos_part (out_of_order_count floats c))
              (pos_part (invalid_count floats c)))
            (emit_all emit (with_duplicates events (initial (pos duplicates))) s)
  unfolding generate
  generate-emit_all s =
      let (range_d, range_l, range_b, counts) = validate_parts floats c valid in
      let (count_d, d) = counted c.duplicate_ratio range_d in
      let (count_l, l) = counted c.out_of_order_ratio range_l in
      let (count_b, b) = counted c.invalid_ratio range_b in
      let left : c.total -ℤ duplicate_count floats c ≡ pos (total - duplicates) =
        ap (λ (x : ℤ). c.total -ℤ x) count_d
        ∙ ap (λ (x : ℤ). x -ℤ pos duplicates) total_of_c
        ∙ sub_pos total duplicates d (omega arith) in
      ap (λ v. validated floats sources c emit s v) valid
      ∙ same_phases _ _ _ _ _ _ _ _ s count_d count_l count_b left
      ∙ phases-finish duplicates (pos_part (out_of_order_count floats c))
          (pos_part (invalid_count floats c)) d counts_fit_total s

  finish-planned_summary :
      (d orders late bad : ℕ)
      → d ≤ total
      → (s' : S)
      → finish {E = E} c.total (planned_summary c (total - d) d orders late bad) (ok tt, s') ≡ (
        (if leb d (total - d)
            then ok (record {
              total_requested = pos total;
              total_published = total;
              unique_event_ids = total - d;
              duplicate_events = d;
              unique_order_ids = orders;
              out_of_order_events = late;
              invalid_transition_events = bad;
              seed = c.seed;
              redis_stream = c.stream;
            })
            else err (GenerateError.wrong_total (2 * (total - d)) (pos total))),
        s',
      )
  finish-planned_summary d orders late bad le s' = rw total_of_c (ground arith)

  -- For a validated configuration whose total fits into 60 bits, with ratios that count as documented
  -- and a payload encoder that does not fail: when the callback accepts every event of the plan,
  -- generate returns a summary of `total` events if there are no more duplicates to come than unique
  -- events, and otherwise the error that only twice the number of unique events were generated.
  pub generate-wrong_total :
      (s s' : S)
      → emit_all emit (with_duplicates events (initial (pos duplicates))) s ≡ (ok tt, s')
      → generate floats sources c emit s ≡ (
        (if leb duplicates (total - duplicates)
            then ok (record {
              total_requested = pos total;
              total_published = total;
              unique_event_ids = total - duplicates;
              duplicate_events = duplicates;
              unique_order_ids = length scripts;
              out_of_order_events = pos_part (out_of_order_count floats c);
              invalid_transition_events = pos_part (invalid_count floats c);
              seed = c.seed;
              redis_stream = c.stream;
            })
            else err (GenerateError.wrong_total (2 * (total - duplicates)) (pos total))),
        s',
      )
  generate-wrong_total s s' accepted =
      let (range_d, range_l, range_b, counts) = validate_parts floats c valid in
      let (count_d, d) = counted c.duplicate_ratio range_d in
      generate-emit_all s
      ∙ ap
          (finish c.total (
            planned_summary c (total - duplicates) duplicates (length scripts)
              (pos_part (out_of_order_count floats c)) (pos_part (invalid_count floats c))))
          accepted
      ∙ finish-planned_summary duplicates (length scripts) (pos_part (out_of_order_count floats c))
          (pos_part (invalid_count floats c)) d s'
