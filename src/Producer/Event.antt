-- ===== src/Producer/Event.antt =====
-- The events, the summary and the state of the generator of generator.go, with the texts of IDs and
-- the instants of events.
use Prim.Native.String.{◌++◌ as str_append}
use senior_backend_order_ing.Prelude.{
  ℕ, zero, suc, ◌+◌, ◌-◌, String, Bool, true, false, List, [], ◌∷◌, Result,
}
use senior_backend_order_ing.Prelude.Int.{ℤ, pos, ◌*ℤ◌, wrap64}
use senior_backend_order_ing.Prelude.Decimal.{decimal, padded}
use senior_backend_order_ing.Domain.{Status, OrderEvent}
use senior_backend_order_ing.Producer.Config.{ConfigError}

pub record GeneratedEvent : Type 0 where
  pub event : OrderEvent
  pub duplicate : Bool
  pub out_of_order : Bool
  pub invalid : Bool

pub record ProducerSummary : Type 0 where
  pub total_requested : ℤ
  pub total_published : ℕ
  pub unique_event_ids : ℕ
  pub duplicate_events : ℕ
  pub unique_order_ids : ℕ
  pub out_of_order_events : ℕ
  pub invalid_transition_events : ℕ
  pub seed : ℤ
  pub redis_stream : String

-- eventGenerator: what changes of it.
pub record EventGenerator : Type 0 where
  pub event_sequence : ℕ
  pub order_sequence : ℕ
  pub time_sequence : ℕ
  -- how many numbers have been drawn
  pub draws : ℕ
  pub duplicates_remaining : ℤ
  pub summary : ProducerSummary

-- 1 January 2025, in nanoseconds from the start of the year 0
abbrev pub deterministic_epoch : ℕ
deterministic_epoch = 63902908800000000000

-- `t.Add(time.Duration(n) * time.Second)`
unfoldable pub add_seconds : ℕ → ℤ → ℕ
add_seconds t n = elim (n *ℤ pos 1000000000) [ ℤ.pos d ↦ t + d | ℤ.negsuc d ↦ t - suc d ]

-- What is outside the generator: a number whose remainder by k the n-th call `Intn(k)` of rand.Rand
-- with this seed returns, and the text that json.Marshal makes of the payload's map.
pub record Sources : Type 0 where
  pub draw : ℤ → ℕ → ℕ
  pub marshal : ℤ → ℕ → Status → Result String String

pub data GenerateError (E : Type 0) : Type 0 where
  invalid_config : ConfigError → GenerateError E
  encode_payload : String → GenerateError E
  emit_failed : E → GenerateError E
  wrong_total : ℕ → ℤ → GenerateError E
  diverges : GenerateError E

-- "order-%d-%09d" and "event-%d-%09d"
unfoldable pub order_id : ℤ → ℕ → String
order_id seed n = str_append (str_append "order-" (decimal seed)) (str_append "-" (padded n))

unfoldable pub event_id : ℤ → ℕ → String
event_id seed n = str_append (str_append "event-" (decimal seed)) (str_append "-" (padded n))

-- `times[index]` of the slice that reserveTimes returns, for the time sequence before it
unfoldable pub time_at : ℤ → ℕ → ℕ → ℕ
unfolding add_seconds
time_at seed sequence index =
    add_seconds (add_seconds deterministic_epoch seed) (wrap64 (pos (sequence + index)))

-- The lifecycles of generateNormal.
unfoldable pub lifecycle : ℕ → List Status
lifecycle zero = Status.created ∷ []
lifecycle (suc zero) = Status.created ∷ Status.paid ∷ []
lifecycle (suc (suc zero)) = Status.created ∷ Status.cancelled ∷ []
lifecycle (suc (suc (suc zero))) = Status.created ∷ Status.paid ∷ Status.shipped ∷ []
lifecycle (suc (suc (suc (suc n)))) = Status.created ∷ Status.paid ∷ Status.cancelled ∷ []

-- `lifecycle[:count]`, if it is longer
abbrev pub take {ℓ} : {A : Type ℓ} → ℕ → List A → List A
take zero xs = []
take (suc n) [] = []
take (suc n) (x ∷ xs) = x ∷ take n xs

abbrev pub plain : OrderEvent → GeneratedEvent
plain event = record { event = event; duplicate = false; out_of_order = false; invalid = false }

abbrev pub is_cancelled : Status → Bool
is_cancelled Status.cancelled = true
is_cancelled _ = false

abbrev pub duplicate_of : GeneratedEvent → GeneratedEvent
duplicate_of generated = record {
  event = generated.event;
  duplicate = true;
  out_of_order = false;
  invalid = false;
}
