-- ===== src/Producer/Scripts.antt =====
-- The phases of the generator emit the events of their scripts.
use senior_backend_order_ing.Prelude.{
  ℕ, zero, suc, ◌+◌, ◌-◌, ◌%◌, ◌≤◌, ◌≡◌, refl, subst, String, Bool, false, List, [], ◌∷◌, ◌++◌,
  Result, ok, Bool-cases, inl, inr, ◌==◌, length, arith,
}
use senior_backend_order_ing.Prelude.Int.{ℤ}
use senior_backend_order_ing.Domain.{Status}
use senior_backend_order_ing.Producer.Event.{
  GeneratedEvent, Sources, order_id, time_at, lifecycle, take, is_cancelled,
}
use senior_backend_order_ing.Producer.Generator.{
  Gen, pure, ◌>>=◌, ◌>>◌, emit_unique, next_order_id, new_event, reserve_times,
}
use senior_backend_order_ing.Producer.Phases.{
  paid_before_created, shipped_before_paid, generate_out_of_order, generate_statuses,
  generate_invalid, draw_lifecycle, generate_normal,
}
use senior_backend_order_ing.Producer.Plan.{
  Script, paid_first, shipped_first, cancelled_last, in_order, script_size, plan_size, event_at,
  statuses_events, script_events, plan_events, late_scripts, invalid_scripts, normal_scripts,
  whole_lifecycle, with_duplicates, tally_all,
}
use senior_backend_order_ing.Producer.Counts.{lifecycle_round}
use senior_backend_order_ing.Producer.Follows.{
  Position, Follows, then-Follows, pure-Follows, next_order_id-Follows, reserve_times-Follows,
  new_event-Follows, emit_unique-Follows,
}
use senior_backend_order_ing.Producer.Emission.{emit_all}

-- Between two orders, the time sequence is the event sequence.
abbrev pub between : ℕ → ℕ → ℕ → Position
between n k d = record { events = n; orders = k; times = n; draws = d }

module _ {E S : Type 0} (emit : GeneratedEvent → S → Result E (Unit {0}) × S) (requested seed : ℤ)
    (stream : String) (sources : Sources) (payload : ℕ → Status → String)
    (marshals : (n : ℕ) (status : Status)
      → sources.marshal seed n status ≡ ok (payload n status)) where
  abbrev Emits : {A : Type 0} → Gen E S A → Position → A → List GeneratedEvent → Position → Type 0
  Emits m p a us q = Follows emit requested seed stream m p a us q

  next :
      {A B : Type 0} {a : A} {b : B} {p q r : Position} {us vs : List GeneratedEvent}
      (m : Gen E S A) (f : A → Gen E S B)
      → Emits m p a us q
      → Emits (f a) q b vs r
      → Emits (m >>= f) p b (us ++ vs) r
  next m f h k = then-Follows emit requested seed stream m f h k

  orders :
      (p : Position)
      → Emits
          (next_order_id seed)
          p
          (order_id seed (p.orders + 1))
          []
          (record p { orders = p.orders + 1 })
  orders p = next_order_id-Follows emit requested seed stream p

  times :
      (count : ℕ) (p : Position)
      → Emits
          (reserve_times seed count)
          p
          (time_at seed p.times)
          []
          (record p { times = p.times + count })
  times count p = reserve_times-Follows emit requested seed stream count p

  events :
      (k second index : ℕ) (status : Status) (p : Position)
      → Emits
          (new_event seed sources (order_id seed k) status (time_at seed second index))
          p
          (event_at seed payload (p.events + 1) k second index status)
          []
          (record p { events = p.events + 1 })
  events k second index status p =
      new_event-Follows emit requested seed stream sources payload marshals (order_id seed k) status
        (time_at seed second index) p

  unique : (e : GeneratedEvent) (p : Position) → Emits (emit_unique emit e) p tt (e ∷ []) p
  unique e p = emit_unique-Follows emit requested seed stream e p

  paid_before_created-Emits :
      (n k d : ℕ)
      → Emits
          (paid_before_created sources seed emit)
          (between n k d)
          tt
          (script_events seed payload paid_first n k)
          (between (n + 2) (k + 1) d)
  unfolding paid_before_created script_events
  paid_before_created-Emits n k d =
      let last : n + 1 + 1 ≡ n + 2 = omega arith in
      subst
        (λ (m : ℕ).
          Emits (paid_before_created sources seed emit) (between n k d) tt
            (script_events seed payload paid_first n k)
            (record { events = m; orders = k + 1; times = n + 2; draws = d }))
        last
        (next _ _ (orders _) (
          next _ _ (times 2 _) (
            next _ _ (events (k + 1) n 0 Status.created _)
              (next _ _ (events (k + 1) n 1 Status.paid _) (next _ _ (unique _ _) (unique _ _))))))

  shipped_before_paid-Emits :
      (n k d : ℕ)
      → Emits
          (shipped_before_paid sources seed emit)
          (between n k d)
          tt
          (script_events seed payload shipped_first n k)
          (between (n + 3) (k + 1) d)
  unfolding shipped_before_paid script_events
  shipped_before_paid-Emits n k d =
      let last : n + 1 + 1 + 1 ≡ n + 3 = omega arith in
      subst
        (λ (m : ℕ).
          Emits (shipped_before_paid sources seed emit) (between n k d) tt
            (script_events seed payload shipped_first n k)
            (record { events = m; orders = k + 1; times = n + 3; draws = d }))
        last
        (next _ _ (orders _) (
          next _ _ (times 3 _) (
            next _ _ (events (k + 1) n 0 Status.created _) (
              next _ _ (events (k + 1) n 1 Status.paid _) (
                next _ _ (events (k + 1) n 2 Status.shipped _)
                  (next _ _ (unique _ _) (next _ _ (unique _ _) (unique _ _))))))))

  generate_statuses-Emits :
      (is_invalid : Status → Bool) (k second index : ℕ) (statuses : List Status) (p : Position)
      → Emits
          (generate_statuses sources seed emit is_invalid
            (order_id seed k)
            (time_at seed second)
            index
            statuses)
          p
          tt
          (statuses_events seed payload is_invalid p.events k second index statuses)
          (record p { events = p.events + length statuses })
  unfolding generate_statuses statuses_events
  generate_statuses-Emits is_invalid k second index [] p =
      let same : p.events ≡ p.events + 0 = omega arith in
      subst (λ (m : ℕ). Emits (pure tt) p tt [] (record p { events = m })) same
        (pure-Follows emit requested seed stream tt p)
  generate_statuses-Emits is_invalid k second index (status ∷ rest) p =
      let same : p.events + 1 + length rest ≡ p.events + suc (length rest) = omega arith in
      subst
        (λ (m : ℕ).
          Emits
            (generate_statuses sources seed emit is_invalid (order_id seed k) (time_at seed second)
              index (status ∷ rest))
            p tt (statuses_events seed payload is_invalid p.events k second index (status ∷ rest))
            (record p { events = m }))
        same
        (next _ _ (events k second index status p) (
          next _ _ (unique _ _) (
            generate_statuses-Emits is_invalid k second (index + 1) rest
              (record p { events = p.events + 1 }))))

  -- The plan of a list of scripts, from between two orders to between two others.
  abbrev Plans : Gen E S (Unit {0}) → List Script → ℕ → ℕ → ℕ → ℕ → Type 0
  Plans m scripts n k d d' =
      Emits m (between n k d) tt (plan_events seed payload scripts n k)
        (between (n + plan_size scripts) (k + length scripts) d')

  Plans-nil : (n k d : ℕ) → Plans (pure tt) [] n k d d
  unfolding plan_events
  Plans-nil n k d =
      let n' : n ≡ n + 0 = omega arith in
      let k' : k ≡ k + 0 = omega arith in
      subst (λ (x : ℕ). Emits (pure tt) (between n k d) tt [] (between x (k + 0) d)) n'
        (subst (λ (y : ℕ). Emits (pure tt) (between n k d) tt [] (between n y d)) k'
          (pure-Follows emit requested seed stream tt (between n k d)))

  Plans-of_parts :
      (m : Gen E S (Unit {0})) (script : Script) (scripts : List Script) (n k d d' : ℕ)
      → Emits m
          (between n k d)
          tt
          (script_events seed payload script n k
            ++ plan_events seed payload scripts (n + script_size script) (k + 1))
          (between (n + script_size script + plan_size scripts) (k + 1 + length scripts) d')
      → Plans m (script ∷ scripts) n k d d'
  unfolding plan_events
  Plans-of_parts m script scripts n k d d' h =
      let ends : ℕ → ℕ → Type 0 = λ x y.
        Emits m (between n k d) tt (plan_events seed payload (script ∷ scripts) n k)
          (between x y d') in
      let n' : n + script_size script + plan_size scripts
          ≡ n + (script_size script + plan_size scripts) =
        omega arith in
      let k' : k + 1 + length scripts ≡ k + suc (length scripts) = omega arith in
      subst (λ x. ends x (k + suc (length scripts))) n'
        (subst (λ y. ends (n + script_size script + plan_size scripts) y) k' h)

  Plans-cons :
      (m rest : Gen E S (Unit {0})) (script : Script) (scripts : List Script) (n k d d' d'' : ℕ)
      → Emits m
          (between n k d)
          tt
          (script_events seed payload script n k)
          (between (n + script_size script) (k + 1) d')
      → Plans rest scripts (n + script_size script) (k + 1) d' d''
      → Plans (m >> rest) (script ∷ scripts) n k d d''
  Plans-cons m rest script scripts n k d d' d'' h t =
      Plans-of_parts (m >> rest) script scripts n k d d'' (next m (λ _. rest) h t)

  pub generate_out_of_order-Plans :
      (index rounds n k d : ℕ)
      → Plans
          (generate_out_of_order sources seed emit index rounds)
          (late_scripts index rounds)
          n
          k
          d
          d
  unfolding generate_out_of_order late_scripts
  generate_out_of_order-Plans index zero n k d = Plans-nil n k d
  generate_out_of_order-Plans index (suc rounds) n k d = elim (Bool-cases (index % 2 == 0)) [
    | inl even ↦ rw even (
        Plans-cons _ _ paid_first (late_scripts (index + 1) rounds) n k d d d
          (paid_before_created-Emits n k d)
          (generate_out_of_order-Plans (index + 1) rounds (n + 2) (k + 1) d))
    | inr odd ↦ rw odd (
        Plans-cons _ _ shipped_first (late_scripts (index + 1) rounds) n k d d d
          (shipped_before_paid-Emits n k d)
          (generate_out_of_order-Plans (index + 1) rounds (n + 3) (k + 1) d))
  ]

  pub generate_invalid-Plans :
      (rounds n k d : ℕ)
      → Plans (generate_invalid sources seed emit rounds) (invalid_scripts rounds) n k d d
  unfolding generate_invalid invalid_scripts script_events
  generate_invalid-Plans zero n k d = Plans-nil n k d
  generate_invalid-Plans (suc rounds) n k d =
      Plans-of_parts _ cancelled_last (invalid_scripts rounds) n k d d (
        next _ _ (orders _) (
          next _ _ (times 4 _) (
            next _ _
              (generate_statuses-Emits is_cancelled (k + 1) n 0 whole_lifecycle
                (record { events = n; orders = k + 1; times = n + 4; draws = d }))
              (generate_invalid-Plans rounds (n + 4) (k + 1) d))))

  draw_lifecycle-Emits :
      (p : Position)
      → Emits
          (draw_lifecycle sources seed emit)
          p
          (lifecycle (sources.draw seed p.draws % 5))
          []
          (record p { draws = p.draws + 1 })
  unfolding draw_lifecycle emit_all with_duplicates tally_all
  draw_lifecycle-Emits p = record { run = λ t s. refl }

  -- The loop of generateNormal has enough fuel.
  pub generate_normal-Plans :
      (fuel count n k d : ℕ)
      → count ≤ fuel
      → Plans
          (generate_normal sources seed emit fuel count)
          (normal_scripts (sources.draw seed) d fuel count)
          n
          k
          d
          (d + length (normal_scripts (sources.draw seed) d fuel count))
  unfolding generate_normal normal_scripts script_events
  generate_normal-Plans fuel zero n k d enough =
      let last : d ≡ d + 0 = omega arith in
      subst (λ (x : ℕ). Plans (pure tt) [] n k d x) last (Plans-nil n k d)
  generate_normal-Plans zero (suc count) n k d enough = absurd (omega arith)
  generate_normal-Plans (suc fuel) (suc count) n k d enough =
      let statuses = take (suc count) (lifecycle (sources.draw seed d % 5)) in
      let rest = normal_scripts (sources.draw seed) (d + 1) fuel (suc count - length statuses) in
      let last : d + 1 + length rest ≡ d + suc (length rest) = omega arith in
      subst
        (λ x.
          Plans (generate_normal sources seed emit (suc fuel) (suc count))
            (in_order statuses ∷ rest) n k d x)
        last
        (Plans-of_parts _ (in_order statuses) rest n k d (d + 1 + length rest) (
          next _ _ (orders _) (
            next _ _ (draw_lifecycle-Emits _) (
              next _ _ (times (length statuses) _) (
                next _ _
                  (generate_statuses-Emits (λ _. false) (k + 1) n 0 statuses
                    (record {
                      events = n;
                      orders = k + 1;
                      times = n + length statuses;
                      draws = d + 1;
                    }))
                  (generate_normal-Plans fuel (suc count - length statuses) (n + length statuses)
                    (k + 1) (d + 1)
                    (omega (arith, lifecycle_round count (sources.draw seed d % 5)))))))))
