-- ===== src/Producer/Phases.antt =====
-- generate of generator.go and its three phases. The summary beside an error, which no caller reads,
-- is left out.
use senior_backend_order_ing.Prelude.{
  ℕ, zero, suc, ◌+◌, ◌-◌, ◌%◌, String, Bool, true, false, List, [], ◌∷◌, Result, ok, err, ◌==◌,
  if◌then◌else◌, length,
}
use senior_backend_order_ing.Prelude.Int.{ℤ, pos, pos_part, ◌-ℤ◌}
use senior_backend_order_ing.Domain.{Status}
use senior_backend_order_ing.Producer.Config.{
  Floats, ProducerConfig, ConfigError, validate, duplicate_count, out_of_order_count, invalid_count,
}
use senior_backend_order_ing.Producer.Event.{
  GeneratedEvent, ProducerSummary, EventGenerator, Sources, GenerateError, lifecycle, take, plain,
  is_cancelled,
}
use senior_backend_order_ing.Producer.Generator.{
  Gen, pure, fail, ◌>>=◌, ◌>>◌, emit_unique, next_order_id, new_event, reserve_times,
}

module _ {E S : Type 0} (sources : Sources) (seed : ℤ)
    (emit : GeneratedEvent → S → Result E (Unit {0}) × S) where
  abbrev M : Type 0 → Type 0
  M A = Gen E S A

  -- The round of generateOutOfOrder with an even index.
  unfoldable pub paid_before_created : M (Unit {0})
  paid_before_created = do
    order ← next_order_id seed
    times ← reserve_times seed 2
    created ← new_event seed sources order Status.created (times 0)
    paid ← new_event seed sources order Status.paid (times 1)
    emit_unique emit (record (plain paid) { out_of_order = true })
    emit_unique emit (plain created)

  -- The round with an odd index.
  unfoldable pub shipped_before_paid : M (Unit {0})
  shipped_before_paid = do
    order ← next_order_id seed
    times ← reserve_times seed 3
    created ← new_event seed sources order Status.created (times 0)
    paid ← new_event seed sources order Status.paid (times 1)
    shipped ← new_event seed sources order Status.shipped (times 2)
    emit_unique emit (record (plain shipped) { out_of_order = true })
    emit_unique emit (plain created)
    emit_unique emit (plain paid)

  -- The loop of generateOutOfOrder from `index`, with the rounds that are left.
  unfoldable pub generate_out_of_order : ℕ → ℕ → M (Unit {0})
  generate_out_of_order index zero = pure tt
  generate_out_of_order index (suc rounds) = do
    if index % 2 == 0 then paid_before_created else shipped_before_paid
    generate_out_of_order (index + 1) rounds

  -- The inner loops of generateInvalid and of generateNormal over the statuses of one order.
  unfoldable pub generate_statuses :
      (Status → Bool) → String → (ℕ → ℕ) → ℕ → List Status → M (Unit {0})
  generate_statuses is_invalid order times index [] = pure tt
  generate_statuses is_invalid order times index (status ∷ rest) = do
    event ← new_event seed sources order status (times index)
    emit_unique emit (record (plain event) { invalid = is_invalid status })
    generate_statuses is_invalid order times (index + 1) rest

  abbrev pub all_statuses : List Status
  all_statuses = Status.created ∷ Status.paid ∷ Status.shipped ∷ Status.cancelled ∷ []

  unfoldable pub generate_invalid : ℕ → M (Unit {0})
  generate_invalid zero = pure tt
  generate_invalid (suc rounds) = do
    order ← next_order_id seed
    times ← reserve_times seed 4
    generate_statuses is_cancelled order times 0 all_statuses
    generate_invalid rounds

  -- `lifecycles[g.random.Intn(len(lifecycles))]`
  unfoldable pub draw_lifecycle : M (List Status)
  draw_lifecycle (g, s) =
      (ok (lifecycle (sources.draw seed g.draws % 5)), (record g { draws = g.draws + 1 }, s))

  -- The loop of generateNormal. Each round generates an event at least, so `count` units of fuel are
  -- enough.
  unfoldable pub generate_normal : ℕ → ℕ → M (Unit {0})
  generate_normal fuel zero = pure tt
  generate_normal zero (suc count) = fail GenerateError.diverges
  generate_normal (suc fuel) (suc count) = do
    order ← next_order_id seed
    drawn ← draw_lifecycle
    let statuses = take (suc count) drawn
    times ← reserve_times seed (length statuses)
    generate_statuses (λ _. false) order times 0 statuses
    generate_normal fuel (suc count - length statuses)

  abbrev pub current : M EventGenerator
  current (g, s) = (ok g, (g, s))

  -- The last phase of generate: what is left up to the target.
  unfoldable pub generate_rest : ℤ → M (Unit {0})
  generate_rest unique_target = do
    g ← current
    let remaining = unique_target -ℤ pos g.summary.unique_event_ids
    generate_normal (pos_part remaining) (pos_part remaining)

  -- The phases of generate, with their counts.
  unfoldable pub generate_phases : ℤ → ℤ → ℤ → M (Unit {0})
  generate_phases out_of_order invalid unique_target = do
    generate_out_of_order 0 (pos_part out_of_order)
    generate_invalid (pos_part invalid)
    generate_rest unique_target

abbrev pub start : {F : Type 0} → ℤ → ProducerConfig F → EventGenerator
start duplicates c = record {
  event_sequence = 0;
  order_sequence = 0;
  time_sequence = 0;
  draws = 0;
  duplicates_remaining = duplicates;
  summary = record {
    total_requested = c.total;
    total_published = 0;
    unique_event_ids = 0;
    duplicate_events = 0;
    unique_order_ids = 0;
    out_of_order_events = 0;
    invalid_transition_events = 0;
    seed = c.seed;
    redis_stream = c.stream;
  };
}

-- `published != total`, negated
abbrev pub is_total : ℕ → ℤ → Bool
is_total n (ℤ.pos m) = n == m
is_total n (ℤ.negsuc m) = false

-- The end of generate: the number of events is checked.
unfoldable pub check_total :
    {E S : Type 0}
    → ℤ
    → Result (GenerateError E) (Unit {0}) × (EventGenerator × S)
    → Result (GenerateError E) ProducerSummary × S
check_total total (ok u, (g, s)) = (
  (if is_total g.summary.total_published total
      then ok g.summary
      else err (GenerateError.wrong_total g.summary.total_published total)),
  s,
)
check_total total (err e, (g, s)) = (err e, s)

-- generate after its validation.
abbrev pub validated :
    {E S F : Type 0}
    → Floats F
    → Sources
    → ProducerConfig F
    → (GeneratedEvent → S → Result E (Unit {0}) × S)
    → S
    → Result ConfigError (Unit {0})
    → Result (GenerateError E) ProducerSummary × S
validated floats sources c emit s (err e) = (err (GenerateError.invalid_config e), s)
validated floats sources c emit s (ok u) =
    let duplicates = duplicate_count floats c in
    check_total c.total (
      generate_phases sources c.seed emit (out_of_order_count floats c) (invalid_count floats c)
        (c.total -ℤ duplicates) (start duplicates c, s))

unfoldable pub generate :
    {E S F : Type 0}
    → Floats F
    → Sources
    → ProducerConfig F
    → (GeneratedEvent → S → Result E (Unit {0}) × S)
    → S
    → Result (GenerateError E) ProducerSummary × S
generate floats sources c emit s = validated floats sources c emit s (validate floats c)
