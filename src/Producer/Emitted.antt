-- ===== src/Producer/Emitted.antt =====
-- What generate hands to its callback: events with IDs of their own, and with true flags.
use senior_backend_order_ing.Prelude.{
  ℕ, ◌-◌, ◌^◌, ◌<◌, ◌≡◌, ◌∙◌, String, List, Result, ok, length, arith,
}
use senior_backend_order_ing.Prelude.Int.{pos, pos_part}
use senior_backend_order_ing.Domain.{Status}
use senior_backend_order_ing.Producer.Config.{
  Floats, ProducerConfig, validate, duplicate_count, out_of_order_count, invalid_count,
}
use senior_backend_order_ing.Producer.Event.{GeneratedEvent, Sources}
use senior_backend_order_ing.Producer.Phases.{generate}
use senior_backend_order_ing.Producer.Plan.{Script, plan_events, with_duplicates}
use senior_backend_order_ing.Producer.Counts.{all_scripts, all_scripts_counts}
use senior_backend_order_ing.Producer.PlanCounts.{plan_events_counts}
use senior_backend_order_ing.Producer.Emission.{emit_all}
use senior_backend_order_ing.Producer.Refinement.{initial}
use senior_backend_order_ing.Producer.Validated.{RatioLaw}
use senior_backend_order_ing.Producer.Totals.{
  finish, planned_summary, generate-emit_all, counts_fit_total,
}
use senior_backend_order_ing.Producer.Identities.{HasDistinctIds, plan_events-HasDistinctIds}
use senior_backend_order_ing.Producer.Labels.{AreLabelled, all_scripts-AreLabelled}

module _ {E S F : Type 0} (floats : Floats F) (sources : Sources) (c : ProducerConfig F)
    (emit : GeneratedEvent → S → Result E (Unit {0}) × S) (payload : ℕ → Status → String)
    (marshals : (n : ℕ) (status : Status) → sources.marshal c.seed n status ≡ ok (payload n status))
    (total : ℕ) (total_of_c : c.total ≡ pos total) (law : RatioLaw floats total)
    (valid : validate floats c ≡ ok tt) where
  -- generate calls the callback for these unique events and their duplicates, and counts this many
  -- orders.
  abbrev pub Emits : List GeneratedEvent → ℕ → Type 0
  Emits es orders =
      let duplicates = pos_part (duplicate_count floats c) in
      (s : S)
      → generate floats sources c emit s
        ≡ finish c.total
            (planned_summary c (total - duplicates) duplicates orders
              (pos_part (out_of_order_count floats c)) (pos_part (invalid_count floats c)))
            (emit_all emit (with_duplicates es (initial (pos duplicates))) s)

  -- The scripts of the three phases.
  abbrev pub scripts : List Script
  scripts =
      all_scripts (sources.draw c.seed) (pos_part (out_of_order_count floats c))
        (pos_part (invalid_count floats c)) (total - pos_part (duplicate_count floats c))

  -- For a validated configuration of a total below 10^9, with ratios that count as documented and a
  -- payload encoder that does not fail: the callback is called for the events of the plan and their
  -- duplicates, and the unique events among them have different IDs and are as many as the summary
  -- says.
  pub generate-HasDistinctIds :
      total < 10 ^ 9
      → let es = plan_events c.seed payload scripts 0 0 in
        Emits es (length scripts)
        × HasDistinctIds es
        × (length es ≡ total - pos_part (duplicate_count floats c))
  generate-HasDistinctIds small =
      let fits =
        counts_fit_total floats sources c emit payload marshals total total_of_c (omega arith) law
          valid in
      let (size, l, b) = all_scripts_counts (sources.draw c.seed) _ _ _ fits in
      let (size', l', b') = plan_events_counts c.seed payload scripts 0 0 in
      (
        generate-emit_all floats sources c emit payload marshals total total_of_c (omega arith) law
            valid,
        plan_events-HasDistinctIds c.seed payload scripts (omega arith),
        size' ∙ size,
      )

  -- For a validated configuration whose total fits into 60 bits, with ratios that count as documented
  -- and a payload encoder that does not fail: the callback is called for the events of scripts, one for
  -- each order of the summary, and their duplicates; and the state machine, which sees the events of a
  -- script in the order in which they are generated, from an order without a status, classifies each as
  -- its flags say: out of order, invalid, or applied.
  pub generate-AreLabelled :
      total < 2 ^ 60
      → Emits (plan_events c.seed payload scripts 0 0) (length scripts)
        × AreLabelled c.seed payload scripts
  generate-AreLabelled small = (
    generate-emit_all floats sources c emit payload marshals total total_of_c small law valid,
    all_scripts-AreLabelled c.seed payload (sources.draw c.seed) _ _ _,
  )
