-- ===== src/Producer/Identities.antt =====
-- The event IDs of a plan.
use Prim.Native.String.{◌++◌ as str_append}
use text.Mathlib.TextLemmas.{append_cancel_left}
use senior_backend_order_ing.Prelude.{
  ℕ, suc, ◌+◌, ◌^◌, ◌≤◌, ◌<◌, ◌≡◌, ◌≢◌, refl, sym, ◌∙◌, String, Bool, false, List, [], ◌∷◌, ◌++◌,
  length, arith,
}
use senior_backend_order_ing.Prelude.Int.{ℤ}
use senior_backend_order_ing.Prelude.Decimal.{decimal, padded_inj}
use senior_backend_order_ing.Domain.{Status}
use senior_backend_order_ing.Producer.Event.{GeneratedEvent, event_id}
use senior_backend_order_ing.Producer.Plan.{
  Script, paid_first, shipped_first, cancelled_last, in_order, script_size, plan_size,
  statuses_events, script_events, plan_events, whole_lifecycle,
}
use senior_backend_order_ing.Producer.Event.{is_cancelled}

pub event_id_inj :
    (seed : ℤ) (m n : ℕ) → m < 10 ^ 9 → n < 10 ^ 9 → event_id seed m ≡ event_id seed n → m ≡ n
unfolding event_id
event_id_inj seed m n hm hn h =
    padded_inj m n hm hn
      (append_cancel_left "-" _ _ (append_cancel_left (str_append "event-" (decimal seed)) _ _ h))

-- No event of the list has this ID.
abbrev pub IsFreshIn : String → List GeneratedEvent → Type 0
IsFreshIn id [] = Unit {0}
IsFreshIn id (e ∷ es) = (id ≢ e.event.event_id) × IsFreshIn id es

abbrev pub HasDistinctIds : List GeneratedEvent → Type 0
HasDistinctIds [] = Unit {0}
HasDistinctIds (e ∷ es) = IsFreshIn e.event.event_id es × HasDistinctIds es

IsFreshIn-append :
    (id : String) (xs ys : List GeneratedEvent)
    → IsFreshIn id xs
    → IsFreshIn id ys
    → IsFreshIn id (xs ++ ys)
IsFreshIn-append id [] ys h k = k
IsFreshIn-append id (x ∷ xs) ys (new, h) k = (new, IsFreshIn-append id xs ys h k)

module _ (seed : ℤ) where
  -- The events have numbers above `low`, up to `high`.
  abbrev NumberedIn : ℕ → ℕ → List GeneratedEvent → Type 0
  NumberedIn low high [] = Unit {0}
  NumberedIn low high (e ∷ es) =
      ((m : ℕ) × (low < m) × (m ≤ high) × (e.event.event_id ≡ event_id seed m))
      × NumberedIn low high es

  NumberedIn-weaken :
      (low high low' high' : ℕ)
      → low' ≤ low
      → high ≤ high'
      → (es : List GeneratedEvent) → NumberedIn low high es
      → NumberedIn low' high' es
  NumberedIn-weaken low high low' high' l h [] n = tt
  NumberedIn-weaken low high low' high' l h (e ∷ es) ((m, above, below, id), rest) =
      ((m, omega arith, omega arith, id), NumberedIn-weaken low high low' high' l h es rest)

  NumberedIn-append :
      (low high : ℕ) (xs ys : List GeneratedEvent)
      → NumberedIn low high xs
      → NumberedIn low high ys
      → NumberedIn low high (xs ++ ys)
  NumberedIn-append low high [] ys h k = k
  NumberedIn-append low high (x ∷ xs) ys (first, h) k =
      (first, NumberedIn-append low high xs ys h k)

  -- An ID with a number up to `low` is not among those above it.
  IsFreshIn-NumberedIn :
      (low high n : ℕ) (id : String)
      → n ≤ low
      → high < 10 ^ 9
      → id ≡ event_id seed n
      → (es : List GeneratedEvent) → NumberedIn low high es
      → IsFreshIn id es
  IsFreshIn-NumberedIn low high n id before small e [] h = tt
  IsFreshIn-NumberedIn low high n id before small e (x ∷ es) ((m, above, below, id_of_x), rest) = (
    λ same.
        let equal = event_id_inj seed n m (omega arith) (omega arith) (sym e ∙ same ∙ id_of_x) in
        omega arith,
    IsFreshIn-NumberedIn low high n id before small e es rest,
  )

  HasDistinctIds-append :
      (low middle high : ℕ)
      → high < 10 ^ 9
      → (xs ys : List GeneratedEvent) → NumberedIn low middle xs
      → NumberedIn middle high ys
      → HasDistinctIds xs
      → HasDistinctIds ys
      → HasDistinctIds (xs ++ ys)
  HasDistinctIds-append low middle high small [] ys h k distinct distinct' = distinct'
  HasDistinctIds-append low middle high small (x ∷ xs) ys ((m, above, below, id), h) k
        (new, distinct) distinct' =
      (
        IsFreshIn-append x.event.event_id xs ys new
            (IsFreshIn-NumberedIn middle high m x.event.event_id below small id ys k),
        HasDistinctIds-append low middle high small xs ys h k distinct distinct',
      )

  module _ (payload : ℕ → Status → String) where
    statuses_events-HasDistinctIds :
        (is_invalid : Status → Bool) (n k second index : ℕ) (statuses : List Status)
        → n + length statuses < 10 ^ 9
        → let es = statuses_events seed payload is_invalid n k second index statuses in
          NumberedIn n (n + length statuses) es × HasDistinctIds es
    unfolding statuses_events
    statuses_events-HasDistinctIds is_invalid n k second index [] small = (tt, tt)
    statuses_events-HasDistinctIds is_invalid n k second index (status ∷ rest) small =
        let es = statuses_events seed payload is_invalid (n + 1) k second (index + 1) rest in
        let (numbered, distinct) =
          statuses_events-HasDistinctIds is_invalid (n + 1) k second (index + 1) rest
            (omega arith) in
        (
          (
            (n + 1, omega arith, omega arith, refl),
            NumberedIn-weaken (n + 1) (n + 1 + length rest) n (n + suc (length rest)) (omega arith)
                (omega arith) es numbered,
          ),
          (
            IsFreshIn-NumberedIn (n + 1) (n + 1 + length rest) (n + 1) (event_id seed (n + 1))
                (omega arith) (omega arith) refl es numbered,
            distinct,
          ),
        )

    differ : (m n : ℕ) → m < 10 ^ 9 → n < 10 ^ 9 → m ≢ n → event_id seed m ≢ event_id seed n
    differ m n hm hn different same = different (event_id_inj seed m n hm hn same)

    script_events-HasDistinctIds :
        (script : Script) (n k : ℕ)
        → n + script_size script < 10 ^ 9
        → let es = script_events seed payload script n k in
          NumberedIn n (n + script_size script) es × HasDistinctIds es
    unfolding script_events
    script_events-HasDistinctIds paid_first n k small = (
      ((n + 1 + 1, omega arith, omega arith, refl), ((n + 1, omega arith, omega arith, refl), tt)),
      ((differ (n + 1 + 1) (n + 1) (omega arith) (omega arith) (λ e. omega arith), tt), (tt, tt)),
    )
    script_events-HasDistinctIds shipped_first n k small = (
      (
        (n + 1 + 1 + 1, omega arith, omega arith, refl),
        (
          (n + 1, omega arith, omega arith, refl),
          ((n + 1 + 1, omega arith, omega arith, refl), tt),
        ),
      ),
      (
        (
          differ (n + 1 + 1 + 1) (n + 1) (omega arith) (omega arith) (λ e. omega arith),
          (differ (n + 1 + 1 + 1) (n + 1 + 1) (omega arith) (omega arith) (λ e. omega arith), tt),
        ),
        ((differ (n + 1) (n + 1 + 1) (omega arith) (omega arith) (λ e. omega arith), tt), (tt, tt)),
      ),
    )
    script_events-HasDistinctIds cancelled_last n k small =
        statuses_events-HasDistinctIds is_cancelled n (k + 1) n 0 whole_lifecycle small
    script_events-HasDistinctIds (in_order statuses) n k small =
        statuses_events-HasDistinctIds (λ _. false) n (k + 1) n 0 statuses small

    plan_events-Numbered :
        (scripts : List Script) (n k : ℕ)
        → n + plan_size scripts < 10 ^ 9
        → let es = plan_events seed payload scripts n k in
          NumberedIn n (n + plan_size scripts) es × HasDistinctIds es
    unfolding plan_events
    plan_events-Numbered [] n k small = (tt, tt)
    plan_events-Numbered (script ∷ scripts) n k small =
        let middle = n + script_size script in
        let high = n + (script_size script + plan_size scripts) in
        let first = script_events seed payload script n k in
        let rest = plan_events seed payload scripts middle (k + 1) in
        let (numbered, distinct) = script_events-HasDistinctIds script n k (omega arith) in
        let (numbered', distinct') = plan_events-Numbered scripts middle (k + 1) (omega arith) in
        let above =
          NumberedIn-weaken middle (middle + plan_size scripts) middle high (omega arith)
            (omega arith) rest numbered' in
        (
          NumberedIn-append n high first rest
              (NumberedIn-weaken n middle n high (omega arith) (omega arith) first numbered)
              (NumberedIn-weaken middle high n high (omega arith) (omega arith) rest above),
          HasDistinctIds-append n middle high (omega arith) first rest numbered above distinct
              distinct',
        )

    -- Fewer than 10^9 events have different IDs.
    pub plan_events-HasDistinctIds :
        (scripts : List Script)
        → plan_size scripts < 10 ^ 9
        → HasDistinctIds (plan_events seed payload scripts 0 0)
    plan_events-HasDistinctIds scripts small = (plan_events-Numbered scripts 0 0 (omega arith)).1
