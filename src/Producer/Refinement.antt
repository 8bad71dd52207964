-- ===== src/Producer/Refinement.antt =====
-- generate emits its plan, whatever the callback: each unique event in turn, followed by its
-- duplicate while duplicates are to come.
use senior_backend_order_ing.Prelude.{
  ℕ, ◌+◌, ◌-◌, ◌*◌, ◌/◌, ◌^◌, ◌≤◌, ◌<◌, ◌≡◌, refl, ap, sym, subst, ◌∙◌, String, List, ◌++◌, Result,
  ok, length, arith,
}
use senior_backend_order_ing.Prelude.Int.{ℤ, pos, pos_part, ◌-ℤ◌, half, add_pos, sub_pos, mul_pos}
use senior_backend_order_ing.Domain.{Status}
use senior_backend_order_ing.Producer.Config.{check_counts, out_of_order_scenario_size}
use senior_backend_order_ing.Producer.Event.{GeneratedEvent, Sources}
use senior_backend_order_ing.Producer.Generator.{◌>>◌ as seq_gen}
use senior_backend_order_ing.Producer.Phases.{
  generate_out_of_order, generate_invalid, generate_phases, generate_rest,
}
use senior_backend_order_ing.Producer.Plan.{
  plan_size, plan_events, late_scripts, invalid_scripts, normal_scripts, Tally, tally_all,
}
use senior_backend_order_ing.Producer.Counts.{
  length-append, all_scripts, late_total, late_size, plan_size-late_scripts,
  plan_size-invalid_scripts,
}
use senior_backend_order_ing.Producer.Tallies.{unique-tally_all}
use senior_backend_order_ing.Producer.PlanCounts.{plan_events_counts, plan_events-append}
use senior_backend_order_ing.Producer.Follows.{Position, RunsAt, then-RunsAt}
use senior_backend_order_ing.Producer.Scripts.{
  between, generate_out_of_order-Plans, generate_invalid-Plans, generate_normal-Plans,
}

abbrev pub initial : ℤ → Tally
initial duplicates = record {
  remaining = duplicates;
  published = 0;
  unique = 0;
  duplicates = 0;
  out_of_order = 0;
  invalid = 0;
}

scenario_size_pos :
    (late : ℕ) → late < 2 ^ 60 → out_of_order_scenario_size (pos late) ≡ pos (late_total late)
unfolding out_of_order_scenario_size half
scenario_size_pos late small =
    rw
      (
        add_pos late 1 (omega arith),
        mul_pos 2 ((late + 1) / 2) (omega arith),
        mul_pos 3 (late / 2) (omega arith),
      )
      (add_pos (2 * ((late + 1) / 2)) (3 * (late / 2)) (omega arith))

-- The counts that validation accepts fit into the unique events.
pub counts_fit :
    (total duplicates late bad : ℕ)
    → total < 2 ^ 60
    → duplicates ≤ total
    → late ≤ total
    → bad ≤ total
    → check_counts (pos total) (pos duplicates) (pos late) (pos bad) ≡ ok tt
    → late_total late + 4 * bad ≤ total - duplicates
unfolding check_counts
counts_fit total duplicates late bad small d l b h =
    let unique = sub_pos total duplicates d (omega arith) in
    let size = scenario_size_pos late (omega arith) in
    let four = mul_pos 4 bad (omega arith) in
    let required = add_pos (late_total late) (4 * bad) (omega arith) in
    let h' = rw (unique, size, four, required) at h in ground arith

module _ {E S : Type 0} (emit : GeneratedEvent → S → Result E (Unit {0}) × S) (requested seed : ℤ)
    (stream : String) (sources : Sources) (payload : ℕ → Status → String)
    (marshals : (n : ℕ) (status : Status)
      → sources.marshal seed n status ≡ ok (payload n status)) where
  -- The phases emit the plan.
  pub phases-RunsAt :
      (late bad target : ℕ) (t : Tally)
      → t.unique ≡ 0
      → target < 2 ^ 63
      → late_total late + 4 * bad ≤ target
      → let scripts = all_scripts (sources.draw seed) late bad target in
        (q : Position) × (q.orders ≡ length scripts)
        × RunsAt emit requested seed stream t
            (generate_phases sources seed emit (pos late) (pos bad) (pos target))
            (between 0 0 0)
            tt
            (plan_events seed payload scripts 0 0)
            q
  unfolding generate_phases generate_rest late_size
  phases-RunsAt late bad target t new small fits =
      let rest = target - (late_total late + 4 * bad) in
      let first = late_scripts 0 late in
      let second = invalid_scripts bad in
      let third = normal_scripts (sources.draw seed) 0 rest rest in
      let es1 = plan_events seed payload first 0 0 in
      let es2 = plan_events seed payload second (0 + plan_size first) (0 + length first) in
      let es3 =
        plan_events seed payload third (0 + plan_size first + plan_size second)
          (0 + length first + length second) in
      let t1 = tally_all es1 t in
      let t2 = tally_all es2 t1 in
      let p1 = between (0 + plan_size first) (0 + length first) 0 in
      let p2 =
        between (0 + plan_size first + plan_size second) (0 + length first + length second) 0 in
      let p3 =
        between (0 + plan_size first + plan_size second + plan_size third)
          (0 + length first + length second + length third) (0 + length third) in
      let size1 = plan_size-late_scripts 0 late in
      let size2 = plan_size-invalid_scripts bad in
      let (l1, m1, w1) = plan_events_counts seed payload first 0 0 in
      let (l2, m2, w2) =
        plan_events_counts seed payload second (0 + plan_size first) (0 + length first) in
      let u1 = unique-tally_all es1 t in
      let u2 = unique-tally_all es2 t1 in
      let emitted : t2.unique ≡ late_total late + 4 * bad = omega arith in
      let left : pos_part (pos target -ℤ pos t2.unique) ≡ rest =
        rw (emitted, sub_pos target (late_total late + 4 * bad) fits small) refl in
      let normal =
        generate_normal-Plans emit requested seed stream sources payload marshals rest rest
          (0 + plan_size first + plan_size second) (0 + length first + length second) 0
          (omega arith) in
      let first_phase = generate_out_of_order sources seed emit 0 late in
      let second_phase = generate_invalid sources seed emit bad in
      let third_phase = generate_rest sources seed emit (pos target) in
      let run =
        then-RunsAt emit requested seed stream tt tt (between 0 0 0) p1 p3 es1 (es2 ++ es3) t
          first_phase (λ _. seq_gen second_phase third_phase)
          ((generate_out_of_order-Plans emit requested seed stream sources payload marshals 0 late 0
              0 0).run
            t)
          (then-RunsAt emit requested seed stream tt tt p1 p2 p3 es2 es3 t1 second_phase
            (λ _. third_phase)
            ((generate_invalid-Plans emit requested seed stream sources payload marshals bad
                (0 + plan_size first) (0 + length first) 0).run
              t1)
            (λ s. rw left (normal.run t2 s))) in
      let whole : plan_events seed payload (all_scripts (sources.draw seed) late bad target) 0 0
          ≡ es1 ++ (es2 ++ es3) =
        plan_events-append seed payload first (second ++ third) 0 0
        ∙ ap (λ (es : List GeneratedEvent). es1 ++ es)
            (plan_events-append seed payload second third (0 + plan_size first)
              (0 + length first)) in
      let orders : 0 + length first + length second + length third
          ≡ length (all_scripts (sources.draw seed) late bad target) =
        omega (arith, length-append first (second ++ third), length-append second third) in
      (
        p3,
        orders,
        subst
            (λ es.
              RunsAt emit requested seed stream t
                (generate_phases sources seed emit (pos late) (pos bad) (pos target))
                (between 0 0 0) tt es p3)
            (sym whole) run,
      )
