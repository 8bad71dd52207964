-- ===== src/Producer/Counts.antt =====
-- How many events the scripts of a plan have, and how many of them are flagged.
use senior_backend_order_ing.Prelude.{
  ℕ, zero, suc, ◌+◌, ◌-◌, ◌*◌, ◌/◌, ◌%◌, ◌≤◌, ◌<◌, ◌≡◌, refl, List, [], ◌∷◌, ◌++◌, ◌==◌, length,
  arith, Bool-cases, inl, inr,
}
use senior_backend_order_ing.Producer.Event.{lifecycle, take}
use senior_backend_order_ing.Producer.Plan.{
  Script, paid_first, shipped_first, cancelled_last, in_order, plan_size, late_scripts,
  invalid_scripts, normal_scripts,
}

length-take-le {ℓ} : {A : Type ℓ} (n : ℕ) (xs : List A) → length (take n xs) ≤ n
length-take-le zero xs = omega arith
length-take-le (suc n) [] = omega arith
length-take-le (suc n) (x ∷ xs) = omega (arith, length-take-le n xs)

-- A round of generateNormal generates an event at least, and no more than are left.
pub lifecycle_round :
    (count n : ℕ)
    → (0 < length (take (suc count) (lifecycle n)))
      × (length (take (suc count) (lifecycle n)) ≤ suc count)
unfolding lifecycle
lifecycle_round count n = (nonempty n, length-take-le (suc count) (lifecycle n))
  where
    nonempty : (n : ℕ) → 0 < length (take (suc count) (lifecycle n))
    nonempty zero = omega arith
    nonempty (suc zero) = omega arith
    nonempty (suc (suc zero)) = omega arith
    nonempty (suc (suc (suc zero))) = omega arith
    nonempty (suc (suc (suc (suc n)))) = omega arith

pub length-append {ℓ} : {A : Type ℓ} (xs ys : List A) → length (xs ++ ys) ≡ length xs + length ys
length-append [] ys = omega arith
length-append (x ∷ xs) ys = omega (arith, length-append xs ys)

plan_size-append : (xs ys : List Script) → plan_size (xs ++ ys) ≡ plan_size xs + plan_size ys
plan_size-append [] ys = omega arith
plan_size-append (x ∷ xs) ys = omega (arith, plan_size-append xs ys)

-- An even number of late rounds has as many of both kinds.
unfoldable pub late_size : ℕ → ℕ → ℕ
late_size index rounds = 2 * ((rounds + 1 - index % 2) / 2) + 3 * ((rounds + index % 2) / 2)

pub plan_size-late_scripts :
    (index rounds : ℕ) → plan_size (late_scripts index rounds) ≡ late_size index rounds
unfolding late_scripts late_size
plan_size-late_scripts index zero = omega arith
plan_size-late_scripts index (suc rounds) =
    ground (arith, plan_size-late_scripts (index + 1) rounds)

pub plan_size-invalid_scripts : (rounds : ℕ) → plan_size (invalid_scripts rounds) ≡ 4 * rounds
unfolding invalid_scripts
plan_size-invalid_scripts zero = omega arith
plan_size-invalid_scripts (suc rounds) = omega (arith, plan_size-invalid_scripts rounds)

plan_size-normal_scripts :
    (draw : ℕ → ℕ) (drawn fuel count : ℕ)
    → count ≤ fuel
    → plan_size (normal_scripts draw drawn fuel count) ≡ count
unfolding normal_scripts
plan_size-normal_scripts draw drawn fuel zero h = refl
plan_size-normal_scripts draw drawn zero (suc count) h = absurd (omega arith)
plan_size-normal_scripts draw drawn (suc fuel) (suc count) h =
    let round = lifecycle_round count (draw drawn % 5) in
    omega (
      arith,
      plan_size-normal_scripts draw (drawn + 1) fuel
          (suc count - length (take (suc count) (lifecycle (draw drawn % 5)))) (omega arith),
    )

-- How many scripts have a late event, and how many an invalid one.
abbrev pub late_in : Script → ℕ
late_in paid_first = 1
late_in shipped_first = 1
late_in cancelled_last = 0
late_in (in_order statuses) = 0

abbrev pub cancelled_in : Script → ℕ
cancelled_in paid_first = 0
cancelled_in shipped_first = 0
cancelled_in cancelled_last = 1
cancelled_in (in_order statuses) = 0

abbrev pub late_count : List Script → ℕ
late_count [] = 0
late_count (script ∷ scripts) = late_in script + late_count scripts

abbrev pub cancelled_count : List Script → ℕ
cancelled_count [] = 0
cancelled_count (script ∷ scripts) = cancelled_in script + cancelled_count scripts

flags-append :
    (xs ys : List Script)
    → (late_count (xs ++ ys) ≡ late_count xs + late_count ys)
      × (cancelled_count (xs ++ ys) ≡ cancelled_count xs + cancelled_count ys)
flags-append [] ys = (omega arith, omega arith)
flags-append (x ∷ xs) ys = let (late, bad) = flags-append xs ys in omega arith

flags-late_scripts :
    (index rounds : ℕ)
    → (late_count (late_scripts index rounds) ≡ rounds)
      × (cancelled_count (late_scripts index rounds) ≡ 0)
unfolding late_scripts
flags-late_scripts index zero = (refl, refl)
flags-late_scripts index (suc rounds) =
    let (late, bad) = flags-late_scripts (index + 1) rounds in
    elim (Bool-cases (index % 2 == 0)) [
      | inl even ↦ rw even (omega arith)
      | inr odd ↦ rw odd (omega arith)
    ]

flags-invalid_scripts :
    (rounds : ℕ)
    → (late_count (invalid_scripts rounds) ≡ 0)
      × (cancelled_count (invalid_scripts rounds) ≡ rounds)
unfolding invalid_scripts
flags-invalid_scripts zero = (refl, refl)
flags-invalid_scripts (suc rounds) = let (late, bad) = flags-invalid_scripts rounds in omega arith

flags-normal_scripts :
    (draw : ℕ → ℕ) (drawn fuel count : ℕ)
    → (late_count (normal_scripts draw drawn fuel count) ≡ 0)
      × (cancelled_count (normal_scripts draw drawn fuel count) ≡ 0)
unfolding normal_scripts
flags-normal_scripts draw drawn fuel zero = (refl, refl)
flags-normal_scripts draw drawn zero (suc count) = (refl, refl)
flags-normal_scripts draw drawn (suc fuel) (suc count) =
    let (late, bad) =
      flags-normal_scripts draw (drawn + 1) fuel
        (suc count - length (take (suc count) (lifecycle (draw drawn % 5)))) in
    (omega arith, omega arith)

-- The number of events of the rounds of generateOutOfOrder.
abbrev pub late_total : ℕ → ℕ
late_total late = 2 * ((late + 1) / 2) + 3 * (late / 2)

-- The scripts of a whole run, with `late` late orders, `bad` invalid ones, and `target` unique events.
abbrev pub all_scripts : (ℕ → ℕ) → ℕ → ℕ → ℕ → List Script
all_scripts draw late bad target =
    late_scripts 0 late
    ++ (invalid_scripts bad
        ++ normal_scripts draw 0 (target - (late_total late + 4 * bad))
            (target - (late_total late + 4 * bad)))

pub all_scripts_counts :
    (draw : ℕ → ℕ) (late bad target : ℕ)
    → late_total late + 4 * bad ≤ target
    → let scripts = all_scripts draw late bad target in
      (plan_size scripts ≡ target) × (late_count scripts ≡ late) × (cancelled_count scripts ≡ bad)
unfolding late_size
all_scripts_counts draw late bad target fits =
    let rest = target - (late_total late + 4 * bad) in
    let normal = normal_scripts draw 0 rest rest in
    let (l, b) = flags-append (late_scripts 0 late) (invalid_scripts bad ++ normal) in
    let (l', b') = flags-append (invalid_scripts bad) normal in
    let (l1, b1) = flags-late_scripts 0 late in
    let (l2, b2) = flags-invalid_scripts bad in
    let (l3, b3) = flags-normal_scripts draw 0 rest rest in
    let size = plan_size-append (late_scripts 0 late) (invalid_scripts bad ++ normal) in
    let size' = plan_size-append (invalid_scripts bad) normal in
    let size1 = plan_size-late_scripts 0 late in
    let size2 = plan_size-invalid_scripts bad in
    let size3 = plan_size-normal_scripts draw 0 rest rest (omega arith) in
    (omega arith, omega arith, omega arith)
