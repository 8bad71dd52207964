-- ===== src/Producer/Labels.antt =====
-- The flags of the generated events, against the state machine of internal/domain.
use senior_backend_order_ing.Prelude.{
  ℕ, zero, suc, ◌+◌, ◌-◌, ◌%◌, ◌≡◌, refl, String, Bool, true, false, List, [], ◌∷◌, ◌++◌, ◌==◌,
  if◌then◌else◌, length,
}
use senior_backend_order_ing.Prelude.Int.{ℤ}
use senior_backend_order_ing.Domain.{Status, Classification, evaluate_transition}
use senior_backend_order_ing.Producer.Event.{GeneratedEvent, lifecycle, take}
use senior_backend_order_ing.Producer.Plan.{
  Script, paid_first, shipped_first, cancelled_last, in_order, script_events, late_scripts,
  invalid_scripts, normal_scripts, statuses_events,
}
use senior_backend_order_ing.Producer.Counts.{all_scripts}

-- The status of an order after an event.
abbrev pub advance : Status → Status → Status
advance current next = if (evaluate_transition current next).allowed then next else current

-- The classifications of an order's events, one after the other.
abbrev pub classified : Status → List GeneratedEvent → List Classification
classified current [] = []
classified current (e ∷ es) =
    (evaluate_transition current e.event.status).classification
    ∷ classified (advance current e.event.status) es

-- What the flags of an event say.
abbrev pub label : GeneratedEvent → Classification
label e =
    if e.out_of_order
    then Classification.out_of_order
    else if e.invalid
    then Classification.invalid_transition
    else Classification.applied

abbrev pub labels : List GeneratedEvent → List Classification
labels [] = []
labels (e ∷ es) = label e ∷ labels es

module _ (seed : ℤ) (payload : ℕ → Status → String) where
  abbrev pub IsLabelled : Script → Type 0
  IsLabelled script =
      (n k : ℕ)
      → let es = script_events seed payload script n k in classified Status.unset es ≡ labels es

  -- Each script of the list is labelled.
  abbrev pub AreLabelled : List Script → Type 0
  AreLabelled [] = Unit {0}
  AreLabelled (script ∷ scripts) = IsLabelled script × AreLabelled scripts

  AreLabelled-append :
      (xs ys : List Script) → AreLabelled xs → AreLabelled ys → AreLabelled (xs ++ ys)
  AreLabelled-append [] ys h k = k
  AreLabelled-append (x ∷ xs) ys (first, h) k = (first, AreLabelled-append xs ys h k)

  IsLabelled-of_late : (even : Bool) → IsLabelled (if even then paid_first else shipped_first)
  unfolding script_events evaluate_transition
  IsLabelled-of_late true n k = refl
  IsLabelled-of_late false n k = refl

  IsLabelled-of_cancelled : IsLabelled cancelled_last
  unfolding script_events statuses_events evaluate_transition
  IsLabelled-of_cancelled n k = refl

  IsLabelled-of_lifecycle : (m l : ℕ) → IsLabelled (in_order (take (suc m) (lifecycle l)))
  unfolding script_events statuses_events evaluate_transition lifecycle
  IsLabelled-of_lifecycle zero zero n k = refl
  IsLabelled-of_lifecycle (suc m) zero n k = refl
  IsLabelled-of_lifecycle zero (suc zero) n k = refl
  IsLabelled-of_lifecycle (suc zero) (suc zero) n k = refl
  IsLabelled-of_lifecycle (suc (suc m)) (suc zero) n k = refl
  IsLabelled-of_lifecycle zero (suc (suc zero)) n k = refl
  IsLabelled-of_lifecycle (suc zero) (suc (suc zero)) n k = refl
  IsLabelled-of_lifecycle (suc (suc m)) (suc (suc zero)) n k = refl
  IsLabelled-of_lifecycle zero (suc (suc (suc zero))) n k = refl
  IsLabelled-of_lifecycle (suc zero) (suc (suc (suc zero))) n k = refl
  IsLabelled-of_lifecycle (suc (suc zero)) (suc (suc (suc zero))) n k = refl
  IsLabelled-of_lifecycle (suc (suc (suc m))) (suc (suc (suc zero))) n k = refl
  IsLabelled-of_lifecycle zero (suc (suc (suc (suc l)))) n k = refl
  IsLabelled-of_lifecycle (suc zero) (suc (suc (suc (suc l)))) n k = refl
  IsLabelled-of_lifecycle (suc (suc zero)) (suc (suc (suc (suc l)))) n k = refl
  IsLabelled-of_lifecycle (suc (suc (suc m))) (suc (suc (suc (suc l)))) n k = refl

  AreLabelled-of_late : (index rounds : ℕ) → AreLabelled (late_scripts index rounds)
  unfolding late_scripts
  AreLabelled-of_late index zero = tt
  AreLabelled-of_late index (suc rounds) =
      (IsLabelled-of_late (index % 2 == 0), AreLabelled-of_late (index + 1) rounds)

  AreLabelled-of_invalid : (rounds : ℕ) → AreLabelled (invalid_scripts rounds)
  unfolding invalid_scripts
  AreLabelled-of_invalid zero = tt
  AreLabelled-of_invalid (suc rounds) = (IsLabelled-of_cancelled, AreLabelled-of_invalid rounds)

  AreLabelled-of_normal :
      (draw : ℕ → ℕ) (drawn fuel count : ℕ) → AreLabelled (normal_scripts draw drawn fuel count)
  unfolding normal_scripts
  AreLabelled-of_normal draw drawn fuel zero = tt
  AreLabelled-of_normal draw drawn zero (suc count) = tt
  AreLabelled-of_normal draw drawn (suc fuel) (suc count) = (
    IsLabelled-of_lifecycle count (draw drawn % 5),
    AreLabelled-of_normal draw (drawn + 1) fuel
        (suc count - length (take (suc count) (lifecycle (draw drawn % 5)))),
  )

  -- When the state machine sees an order's events in the order in which they are generated, from an
  -- order without a status, it classifies each event as its flags say: out of order, invalid, or
  -- applied.
  pub all_scripts-AreLabelled :
      (draw : ℕ → ℕ) (late bad target : ℕ) → AreLabelled (all_scripts draw late bad target)
  all_scripts-AreLabelled draw late bad target =
      AreLabelled-append (late_scripts 0 late) _ (AreLabelled-of_late 0 late) (
        AreLabelled-append (invalid_scripts bad) _ (AreLabelled-of_invalid bad)
          (AreLabelled-of_normal draw 0 _ _))
