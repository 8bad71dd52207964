-- ===== src/Producer/PlanCounts.antt =====
-- The events of a plan, against the counts of its scripts.
use mathlib.Core.List.{append_assoc}
use senior_backend_order_ing.Prelude.{
  sym, ℕ, suc, ◌+◌, ◌≡◌, refl, String, Bool, false, List, [], ◌∷◌, ◌++◌, length, arith,
}
use senior_backend_order_ing.Prelude.Int.{ℤ}
use senior_backend_order_ing.Domain.{Status}
use senior_backend_order_ing.Producer.Plan.{
  Script, paid_first, shipped_first, cancelled_last, in_order, script_size, plan_size,
  statuses_events, script_events, plan_events,
}
use senior_backend_order_ing.Producer.Counts.{
  late_in, cancelled_in, late_count, cancelled_count, length-append,
}
use senior_backend_order_ing.Producer.Tallies.{
  late_events, invalid_events, late_events-append, invalid_events-append,
}

module _ (seed : ℤ) (payload : ℕ → Status → String) where
  -- The events of a lifecycle in order are as many as its statuses, and none is late.
  statuses_events_counts :
      (is_invalid : Status → Bool) (n k second index : ℕ) (statuses : List Status)
      → let es = statuses_events seed payload is_invalid n k second index statuses in
        (length es ≡ length statuses) × (late_events es ≡ 0)
  unfolding statuses_events
  statuses_events_counts is_invalid n k second index [] = omega arith
  statuses_events_counts is_invalid n k second index (status ∷ rest) =
      let (size, late) = statuses_events_counts is_invalid (n + 1) k second (index + 1) rest in
      omega arith

  statuses_events_valid :
      (n k second index : ℕ) (statuses : List Status)
      → invalid_events (statuses_events seed payload (λ _. false) n k second index statuses) ≡ 0
  unfolding statuses_events
  statuses_events_valid n k second index [] = refl
  statuses_events_valid n k second index (status ∷ rest) =
      omega (arith, statuses_events_valid (n + 1) k second (index + 1) rest)

  script_events_counts :
      (script : Script) (n k : ℕ)
      → let es = script_events seed payload script n k in
        (length es ≡ script_size script)
        × (late_events es ≡ late_in script)
        × (invalid_events es ≡ cancelled_in script)
  unfolding script_events
  script_events_counts paid_first n k = (refl, refl, refl)
  script_events_counts shipped_first n k = (refl, refl, refl)
  script_events_counts cancelled_last n k = (refl, refl, refl)
  script_events_counts (in_order statuses) n k =
      let (size, late) = statuses_events_counts (λ _. false) n (k + 1) n 0 statuses in
      (size, late, statuses_events_valid n (k + 1) n 0 statuses)

  -- A plan has as many events as its scripts, and as many flagged ones as it has such scripts.
  pub plan_events_counts :
      (scripts : List Script) (n k : ℕ)
      → let es = plan_events seed payload scripts n k in
        (length es ≡ plan_size scripts)
        × (late_events es ≡ late_count scripts)
        × (invalid_events es ≡ cancelled_count scripts)
  unfolding plan_events
  plan_events_counts [] n k = (refl, refl, refl)
  plan_events_counts (script ∷ scripts) n k =
      let first = script_events seed payload script n k in
      let rest = plan_events seed payload scripts (n + script_size script) (k + 1) in
      let (size, late, bad) = script_events_counts script n k in
      let (size', late', bad') = plan_events_counts scripts (n + script_size script) (k + 1) in
      omega (
        arith,
        length-append first rest,
        late_events-append first rest,
        invalid_events-append first rest,
      )

  pub plan_events-append :
      (xs ys : List Script) (n k : ℕ)
      → plan_events seed payload (xs ++ ys) n k
        ≡ plan_events seed payload xs n k
          ++ plan_events seed payload ys (n + plan_size xs) (k + length xs)
  unfolding plan_events
  plan_events-append [] ys n k =
      let n' : n + 0 ≡ n = omega arith in let k' : k + 0 ≡ k = omega arith in rw (n', k') refl
  plan_events-append (x ∷ xs) ys n k =
      let n' : n + script_size x + plan_size xs ≡ n + (script_size x + plan_size xs) =
        omega arith in
      let k' : k + 1 + length xs ≡ k + suc (length xs) = omega arith in
      rw (plan_events-append xs ys (n + script_size x) (k + 1), n', k')
        (sym (append_assoc (script_events seed payload x n k) _ _))
