-- ===== src/Producer/Generator.antt =====
-- The methods of eventGenerator in generator.go. `emit` is the caller's callback, over a state `S` of
-- its own, with errors `E`.
use senior_backend_order_ing.Prelude.{ℕ, ◌+◌, String, Result, ok, err, if◌then◌else◌}
use senior_backend_order_ing.Prelude.Int.{ℤ, pos, ◌-ℤ◌, is_nonzero}
use senior_backend_order_ing.Domain.{Status, OrderEvent}
use senior_backend_order_ing.Producer.Event.{
  GeneratedEvent, EventGenerator, Sources, GenerateError, order_id, event_id, time_at, duplicate_of,
}

-- A call of a method of the generator, with the state of the callback beside it.
abbrev pub Gen : Type 0 → Type 0 → Type 0 → Type 0
Gen E S A = EventGenerator × S → Result (GenerateError E) A × (EventGenerator × S)

abbrev pub pure : {E S A : Type 0} → A → Gen E S A
pure a w = (ok a, w)

abbrev pub fail : {E S A : Type 0} → GenerateError E → Gen E S A
fail e w = (err e, w)

abbrev pub continue :
    {E S A B : Type 0}
    → (A → Gen E S B)
    → Result (GenerateError E) A × (EventGenerator × S)
    → Result (GenerateError E) B × (EventGenerator × S)
continue f (ok a, w) = f a w
continue f (err e, w) = (err e, w)

infixl 5 ◌>>=◌ ◌>>◌
abbrev pub ◌>>=◌ : {E S A B : Type 0} → Gen E S A → (A → Gen E S B) → Gen E S B
◌>>=◌ m f w = continue f (m w)

abbrev pub ◌>>◌ : {E S A B : Type 0} → Gen E S A → Gen E S B → Gen E S B
m >> k = m >>= λ _. k

module _ {E S : Type 0} (emit : GeneratedEvent → S → Result E (Unit {0}) × S) where
  abbrev pub emitted :
      EventGenerator
      → Result E (Unit {0}) × S
      → Result (GenerateError E) (Unit {0}) × (EventGenerator × S)
  emitted g (ok u, s) = (ok u, (g, s))
  emitted g (err e, s) = (err (GenerateError.emit_failed e), (g, s))

  unfoldable pub emit_event : GeneratedEvent → Gen E S (Unit {0})
  emit_event event (g, s) = emitted g (emit event s)

  abbrev pub count_unique : GeneratedEvent → EventGenerator → EventGenerator
  count_unique generated g = record g {
    summary = record g.summary {
      total_published = g.summary.total_published + 1;
      unique_event_ids = g.summary.unique_event_ids + 1;
      out_of_order_events =
          g.summary.out_of_order_events + (if generated.out_of_order then 1 else 0);
      invalid_transition_events =
          g.summary.invalid_transition_events + (if generated.invalid then 1 else 0);
    };
  }

  abbrev pub count_duplicate : EventGenerator → EventGenerator
  count_duplicate g = record g {
    duplicates_remaining = g.duplicates_remaining -ℤ pos 1;
    summary = record g.summary {
      total_published = g.summary.total_published + 1;
      duplicate_events = g.summary.duplicate_events + 1;
    };
  }

  abbrev pub modify : (EventGenerator → EventGenerator) → Gen E S (Unit {0})
  modify f (g, s) = (ok tt, (f g, s))

  -- The second half of emitUnique.
  unfoldable pub emit_duplicate : GeneratedEvent → Gen E S (Unit {0})
  unfolding emit_event
  emit_duplicate generated (g, s) =
      if is_nonzero g.duplicates_remaining
      then (do emit_event (duplicate_of generated); modify count_duplicate) (g, s)
      else (ok tt, (g, s))

  unfoldable pub emit_unique : GeneratedEvent → Gen E S (Unit {0})
  unfolding emit_event emit_duplicate
  emit_unique generated = do
    emit_event generated
    modify (count_unique generated)
    emit_duplicate generated

module _ {E S : Type 0} (seed : ℤ) where
  unfoldable pub next_order_id : Gen E S String
  next_order_id (g, s) = (
    ok (order_id seed (g.order_sequence + 1)),
    (
      record g {
        order_sequence = g.order_sequence + 1;
        summary = record g.summary { unique_order_ids = g.summary.unique_order_ids + 1 };
      },
      s,
    ),
  )

  abbrev pub encoded :
      EventGenerator
      → S
      → String
      → Status
      → ℕ
      → Result String String
      → Result (GenerateError E) OrderEvent × (EventGenerator × S)
  encoded g s order status timestamp (ok payload) = (
    ok (record {
      event_id = event_id seed g.event_sequence;
      order_id = order;
      status = status;
      timestamp = timestamp;
      payload = payload;
    }),
    (g, s),
  )
  encoded g s order status timestamp (err e) = (err (GenerateError.encode_payload e), (g, s))

  unfoldable pub reserve_times : ℕ → Gen E S (ℕ → ℕ)
  unfolding time_at
  reserve_times count (g, s) =
      (ok (time_at seed g.time_sequence), (record g { time_sequence = g.time_sequence + count }, s))

  unfoldable pub new_event : Sources → String → Status → ℕ → Gen E S OrderEvent
  new_event sources order status timestamp (g, s) =
      let n = g.event_sequence + 1 in
      encoded (record g { event_sequence = n }) s order status timestamp
        (sources.marshal seed n status)
