-- ===== src/Producer/Emission.antt =====
-- A callback, called for each event of a list in turn.
use mathlib.Core.List.{append_assoc}
use senior_backend_order_ing.Prelude.{◌≡◌, refl, List, [], ◌∷◌, ◌++◌, Result, ok, err}
use senior_backend_order_ing.Producer.Event.{GeneratedEvent}
use senior_backend_order_ing.Producer.Plan.{Tally, tally, with_duplicates, tally_all}

module _ {E S : Type 0} where
  abbrev pub proceed :
      (S → Result E (Unit {0}) × S) → Result E (Unit {0}) × S → Result E (Unit {0}) × S
  proceed rest (ok u, s) = rest s
  proceed rest (err e, s) = (err e, s)

  -- The callback is called for each event in turn, up to its first error.
  unfoldable pub emit_all :
      (GeneratedEvent → S → Result E (Unit {0}) × S)
      → List GeneratedEvent
      → S
      → Result E (Unit {0}) × S
  emit_all emit [] s = (ok tt, s)
  emit_all emit (e ∷ es) s = proceed (emit_all emit es) (emit e s)

  proceed-proceed :
      (f g h : S → Result E (Unit {0}) × S)
      → ((s : S) → h s ≡ proceed g (f s))
      → (r : Result E (Unit {0}) × S) → proceed h r ≡ proceed g (proceed f r)
  proceed-proceed f g h e (ok u, s) = e s
  proceed-proceed f g h e (err x, s) = refl

  pub emit_all-append :
      (emit : GeneratedEvent → S → Result E (Unit {0}) × S) (xs ys : List GeneratedEvent) (s : S)
      → emit_all emit (xs ++ ys) s ≡ proceed (emit_all emit ys) (emit_all emit xs s)
  unfolding emit_all
  emit_all-append emit [] ys s = refl
  emit_all-append emit (x ∷ xs) ys s =
      proceed-proceed (emit_all emit xs) (emit_all emit ys) (emit_all emit (xs ++ ys))
        (emit_all-append emit xs ys) (emit x s)

pub with_duplicates-append :
    (xs ys : List GeneratedEvent) (t : Tally)
    → with_duplicates (xs ++ ys) t ≡ with_duplicates xs t ++ with_duplicates ys (tally_all xs t)
unfolding with_duplicates tally_all
with_duplicates-append [] ys t = refl
with_duplicates-append (x ∷ xs) ys t = simp (with_duplicates-append xs ys (tally x t), append_assoc)

pub tally_all-append :
    (xs ys : List GeneratedEvent) (t : Tally)
    → tally_all (xs ++ ys) t ≡ tally_all ys (tally_all xs t)
unfolding tally_all
tally_all-append [] ys t = refl
tally_all-append (x ∷ xs) ys t = tally_all-append xs ys (tally x t)
