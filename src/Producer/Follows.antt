-- ===== src/Producer/Follows.antt =====
-- When a method of the generator emits a list of unique events: rules for sequences and for the
-- single methods.
use senior_backend_order_ing.Prelude.{
  ℕ, ◌+◌, ◌≡◌, refl, ap, String, true, false, List, [], ◌∷◌, ◌++◌, Result, ok, err, Bool-cases, inl,
  inr,
}
use senior_backend_order_ing.Prelude.Int.{ℤ, is_nonzero}
use senior_backend_order_ing.Domain.{Status}
use senior_backend_order_ing.Producer.Event.{
  GeneratedEvent, EventGenerator, Sources, GenerateError, order_id, event_id, time_at, duplicate_of,
}
use senior_backend_order_ing.Producer.Generator.{
  Gen, pure, modify, count_unique, count_duplicate, continue, ◌>>=◌, emitted, emit_event,
  emit_duplicate, emit_unique, next_order_id, new_event, reserve_times,
}
use senior_backend_order_ing.Producer.Plan.{Tally, with_duplicates, tally_all}
use senior_backend_order_ing.Producer.Emission.{
  proceed, emit_all, emit_all-append, with_duplicates-append, tally_all-append,
}

-- Where the generator is: its sequences.
pub record Position : Type 0 where
  pub events : ℕ
  pub orders : ℕ
  pub times : ℕ
  pub draws : ℕ

-- The generator at a position, with what it has counted.
abbrev pub build : ℤ → ℤ → String → Position → Tally → EventGenerator
build requested seed stream p t = record {
  event_sequence = p.events;
  order_sequence = p.orders;
  time_sequence = p.times;
  draws = p.draws;
  duplicates_remaining = t.remaining;
  summary = record {
    total_requested = requested;
    total_published = t.published;
    unique_event_ids = t.unique;
    duplicate_events = t.duplicates;
    unique_order_ids = p.orders;
    out_of_order_events = t.out_of_order;
    invalid_transition_events = t.invalid;
    seed = seed;
    redis_stream = stream;
  };
}

module _ {E S : Type 0} (emit : GeneratedEvent → S → Result E (Unit {0}) × S) (requested seed : ℤ)
    (stream : String) where
  -- How a method ends when the callback has been called for its events.
  abbrev pub Ends :
      {A : Type 0}
      → A
      → EventGenerator
      → Result E (Unit {0}) × S
      → Result (GenerateError E) A × (EventGenerator × S)
      → Type 0
  Ends a g (ok u, s) r = r ≡ (ok a, (g, s))
  Ends a g (err e, s) r = (r.0 ≡ err (GenerateError.emit_failed e)) × (r.1.1 ≡ s)

  -- From position `p` and the counts `t`, the method returns `a` at position `q` after the callback
  -- has been called for the unique events `us` and their duplicates, or fails where the callback does.
  abbrev pub RunsAt :
      {A : Type 0} → Tally → Gen E S A → Position → A → List GeneratedEvent → Position → Type 0
  RunsAt t m p a us q =
      (s : S)
      → Ends a (build requested seed stream q (tally_all us t))
          (emit_all emit (with_duplicates us t) s) (m (build requested seed stream p t, s))

  -- The same from any counts.
  pub record Follows {A : Type 0} (m : Gen E S A) (p : Position) (a : A) (us : List GeneratedEvent)
      (q : Position) : Type 0 where
    pub run : (t : Tally) → RunsAt t m p a us q

  Ends-then :
      {A B : Type 0} (a : A) (b : B) (g g' : EventGenerator) (f : A → Gen E S B)
      (first : Result E (Unit {0}) × S) (rest : S → Result E (Unit {0}) × S)
      (r : Result (GenerateError E) A × (EventGenerator × S))
      → Ends a g first r
      → ((s : S) → Ends b g' (rest s) (f a (g, s)))
      → Ends b g' (proceed rest first) (continue f r)
  Ends-then a b g g' f (ok u, s) rest r h k = rw h (k s)
  Ends-then a b g g' f (err e, s) rest (ok x, w) h k = cc h.0
  Ends-then a b g g' f (err e, s) rest (err x, w) h k = (
    let same : x ≡ GenerateError.emit_failed e = cc h.0 in ap (λ (y : GenerateError E). err y) same,
    h.1,
  )

  pub then-RunsAt :
      {A B : Type 0} (a : A) (b : B) (p q r : Position) (us vs : List GeneratedEvent) (t : Tally)
      (m : Gen E S A) (f : A → Gen E S B)
      → RunsAt t m p a us q
      → RunsAt (tally_all us t) (f a) q b vs r
      → RunsAt t (m >>= f) p b (us ++ vs) r
  then-RunsAt a b p q r us vs t m f h k s =
      rw
        (
          with_duplicates-append us vs t,
          tally_all-append us vs t,
          emit_all-append emit (with_duplicates us t) (with_duplicates vs (tally_all us t)) s,
        )
        (Ends-then a b _ _ f (emit_all emit (with_duplicates us t) s) _ _ (h s) k)

  pub then-Follows :
      {A B : Type 0} {a : A} {b : B} {p q r : Position} {us vs : List GeneratedEvent}
      (m : Gen E S A) (f : A → Gen E S B)
      → Follows m p a us q
      → Follows (f a) q b vs r
      → Follows (m >>= f) p b (us ++ vs) r
  then-Follows {a = a} {b = b} {p = p} {q = q} {r = r} {us = us} {vs = vs} m f h k = record {
    run = λ t. then-RunsAt a b p q r us vs t m f (h.run t) (k.run (tally_all us t));
  }

  pub pure-Follows : {A : Type 0} (a : A) (p : Position) → Follows (pure a) p a [] p
  unfolding emit_all with_duplicates tally_all
  pure-Follows a p = record { run = λ t s. refl }

  pub next_order_id-Follows :
      (p : Position)
      → Follows
          (next_order_id seed)
          p
          (order_id seed (p.orders + 1))
          []
          (record p { orders = p.orders + 1 })
  unfolding emit_all with_duplicates tally_all next_order_id
  next_order_id-Follows p = record { run = λ t s. refl }

  pub reserve_times-Follows :
      (count : ℕ) (p : Position)
      → Follows
          (reserve_times seed count)
          p
          (time_at seed p.times)
          []
          (record p { times = p.times + count })
  unfolding emit_all with_duplicates tally_all reserve_times
  reserve_times-Follows count p = record { run = λ t s. refl }

  pub new_event-Follows :
      (sources : Sources) (payload : ℕ → Status → String)
      → ((n : ℕ) (status : Status) → sources.marshal seed n status ≡ ok (payload n status))
      → (order : String) (status : Status) (at : ℕ) (p : Position)
      → Follows
          (new_event seed sources order status at)
          p
          (record {
            event_id = event_id seed (p.events + 1);
            order_id = order;
            status = status;
            timestamp = at;
            payload = payload (p.events + 1) status;
          })
          []
          (record p { events = p.events + 1 })
  unfolding emit_all with_duplicates tally_all new_event
  new_event-Follows sources payload marshals order status at p = record {
    run = λ t s. rw (marshals (p.events + 1) status) refl;
  }

  Ends-emitted : (g : EventGenerator) (r : Result E (Unit {0}) × S) → Ends tt g r (emitted emit g r)
  Ends-emitted g (ok u, s) = refl
  Ends-emitted g (err e, s) = (refl, refl)

  emit_duplicate_more :
      (e : GeneratedEvent) (g : EventGenerator) (s : S)
      → is_nonzero g.duplicates_remaining ≡ true
      → Ends tt
          (count_duplicate emit g)
          (emit_all emit (duplicate_of e ∷ []) s)
          (emit_duplicate emit e (g, s))
  unfolding emit_duplicate emit_event emit_all
  emit_duplicate_more e g s more = rw more (
      Ends-then tt tt g _ (λ u. modify emit (count_duplicate emit)) (emit (duplicate_of e) s)
        (λ s'. (ok tt, s')) (emitted emit g (emit (duplicate_of e) s))
        (Ends-emitted g (emit (duplicate_of e) s)) (λ s'. refl))

  emit_duplicate_none :
      (e : GeneratedEvent) (g : EventGenerator) (s : S)
      → is_nonzero g.duplicates_remaining ≡ false
      → Ends tt g (ok tt, s) (emit_duplicate emit e (g, s))
  unfolding emit_duplicate
  emit_duplicate_none e g s none_left = rw none_left refl

  pub emit_unique-Follows :
      (e : GeneratedEvent) (p : Position) → Follows (emit_unique emit e) p tt (e ∷ []) p
  unfolding emit_unique emit_event emit_all with_duplicates tally_all
  emit_unique-Follows e p = record {
    run = λ t s.
        let g = build requested seed stream p t in
        let rest = λ (u : Unit {0}) (w : EventGenerator × S).
          emit_duplicate emit e (count_unique emit e w.0, w.1) in
        elim (Bool-cases (is_nonzero t.remaining)) [
          | inl more ↦ rw more (
              Ends-then tt tt g _ rest (emit e s) (emit_all emit (duplicate_of e ∷ []))
                (emitted emit g (emit e s)) (Ends-emitted g (emit e s))
                (λ s'. emit_duplicate_more e (count_unique emit e g) s' more))
          | inr none_left ↦ rw none_left (
              Ends-then tt tt g _ rest (emit e s) (λ s'. (ok tt, s')) (emitted emit g (emit e s))
                (Ends-emitted g (emit e s))
                (λ s'. emit_duplicate_none e (count_unique emit e g) s' none_left))
        ];
  }
