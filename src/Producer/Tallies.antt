-- ===== src/Producer/Tallies.antt =====
-- What is counted when a list of unique events is emitted.
use senior_backend_order_ing.Prelude.{
  ℕ, zero, suc, ◌+◌, ◌-◌, ◌^◌, ◌<◌, ◌≡◌, refl, ap, ◌∙◌, true, false, List, [], ◌∷◌, ◌++◌,
  if◌then◌else◌, length, min, arith,
}
use senior_backend_order_ing.Prelude.Int.{pos, ◌-ℤ◌, is_nonzero, sub_pos}
use senior_backend_order_ing.Producer.Event.{GeneratedEvent}
use senior_backend_order_ing.Producer.Plan.{Tally, tally, tally_unique, tally_all}

-- How many events of a list are flagged.
abbrev pub late_events : List GeneratedEvent → ℕ
late_events [] = 0
late_events (e ∷ es) = (if e.out_of_order then 1 else 0) + late_events es

abbrev pub invalid_events : List GeneratedEvent → ℕ
invalid_events [] = 0
invalid_events (e ∷ es) = (if e.invalid then 1 else 0) + invalid_events es

tally_none_left :
    (e : GeneratedEvent) (t : Tally) → t.remaining ≡ pos 0 → tally e t ≡ tally_unique e t
tally_none_left e t h = let off : is_nonzero t.remaining ≡ false = rw h refl in rw off refl

tally_more :
    (e : GeneratedEvent) (t : Tally) (n : ℕ)
    → t.remaining ≡ pos (suc n)
    → suc n < 2 ^ 63
    → tally e t ≡ record (tally_unique e t) {
      remaining = pos n;
      published = t.published + 1 + 1;
      duplicates = t.duplicates + 1;
    }
tally_more e t n h small =
    let on : is_nonzero t.remaining ≡ true = rw h (ground arith) in
    let less : t.remaining -ℤ pos 1 ≡ pos n =
      rw h (sub_pos (suc n) 1 (omega arith) small ∙ ap pos (omega arith)) in
    rw (on, less) refl

-- While `n` duplicates are to come, each unique event takes one.
pub tally_all_counts :
    (es : List GeneratedEvent) (t : Tally) (n : ℕ)
    → t.remaining ≡ pos n
    → n < 2 ^ 63
    → let d = min n (length es) in
      tally_all es t ≡ record {
        remaining = pos (n - d);
        published = t.published + length es + d;
        unique = t.unique + length es;
        duplicates = t.duplicates + d;
        out_of_order = t.out_of_order + late_events es;
        invalid = t.invalid + invalid_events es;
      }
unfolding tally_all
tally_all_counts [] t n h small = ground arith
tally_all_counts (e ∷ es) t zero h small =
    ap (tally_all es) (tally_none_left e t h)
    ∙ tally_all_counts es (tally_unique e t) 0 h (omega arith)
    ∙ ground arith
tally_all_counts (e ∷ es) t (suc n) h small =
    ap (tally_all es) (tally_more e t n h small)
    ∙ tally_all_counts es _ n refl (omega arith)
    ∙ ground arith

pub unique-tally_all :
    (es : List GeneratedEvent) (t : Tally) → (tally_all es t).unique ≡ t.unique + length es
unfolding tally_all
unique-tally_all [] t = omega arith
unique-tally_all (e ∷ es) t = ground (arith, unique-tally_all es (tally e t))

pub late_events-append :
    (xs ys : List GeneratedEvent) → late_events (xs ++ ys) ≡ late_events xs + late_events ys
late_events-append [] ys = omega arith
late_events-append (x ∷ xs) ys = omega (arith, late_events-append xs ys)

pub invalid_events-append :
    (xs ys : List GeneratedEvent)
    → invalid_events (xs ++ ys) ≡ invalid_events xs + invalid_events ys
invalid_events-append [] ys = omega arith
invalid_events-append (x ∷ xs) ys = omega (arith, invalid_events-append xs ys)
