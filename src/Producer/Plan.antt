-- ===== src/Producer/Plan.antt =====
-- What the generator emits, without its state and its callback: a list of scripts, one for each order,
-- and the events of a script in the order in which they are emitted.
use senior_backend_order_ing.Prelude.{
  ℕ, zero, suc, ◌+◌, ◌-◌, ◌%◌, String, Bool, true, false, List, [], ◌∷◌, ◌++◌, ◌==◌, if◌then◌else◌,
  length,
}
use senior_backend_order_ing.Prelude.Int.{ℤ, pos, ◌-ℤ◌, is_nonzero}
use senior_backend_order_ing.Domain.{Status, OrderEvent}
use senior_backend_order_ing.Producer.Event.{
  GeneratedEvent, order_id, event_id, time_at, lifecycle, take, plain, is_cancelled, duplicate_of,
}

-- One order: PAID before CREATED; SHIPPED before CREATED and PAID; a whole lifecycle and then
-- CANCELLED; or a lifecycle in order.
pub data Script : Type 0 where
  paid_first shipped_first cancelled_last : Script
  in_order : List Status → Script

abbrev pub whole_lifecycle : List Status
whole_lifecycle = Status.created ∷ Status.paid ∷ Status.shipped ∷ Status.cancelled ∷ []

abbrev pub script_size : Script → ℕ
script_size paid_first = 2
script_size shipped_first = 3
script_size cancelled_last = 4
script_size (in_order statuses) = length statuses

abbrev pub plan_size : List Script → ℕ
plan_size [] = 0
plan_size (script ∷ scripts) = script_size script + plan_size scripts

module _ (seed : ℤ) (payload : ℕ → Status → String) where
  -- The event with number `n` of the order with number `k`, at the `index`-th second after `second`.
  abbrev pub event_at : ℕ → ℕ → ℕ → ℕ → Status → OrderEvent
  event_at n k second index status = record {
    event_id = event_id seed n;
    order_id = order_id seed k;
    status = status;
    timestamp = time_at seed second index;
    payload = payload n status;
  }

  -- The events of an order in the order of their instants, from the one with number `n + 1`.
  unfoldable pub statuses_events :
      (Status → Bool) → ℕ → ℕ → ℕ → ℕ → List Status → List GeneratedEvent
  statuses_events is_invalid n k second index [] = []
  statuses_events is_invalid n k second index (status ∷ rest) =
      record (plain (event_at (n + 1) k second index status)) { invalid = is_invalid status }
      ∷ statuses_events is_invalid (n + 1) k second (index + 1) rest

  -- The events of a script, after `n` events of `k` orders.
  unfoldable pub script_events : Script → ℕ → ℕ → List GeneratedEvent
  unfolding statuses_events
  script_events paid_first n k =
      record (plain (event_at (n + 1 + 1) (k + 1) n 1 Status.paid)) { out_of_order = true }
      ∷ plain (event_at (n + 1) (k + 1) n 0 Status.created)
      ∷ []
  script_events shipped_first n k =
      record (plain (event_at (n + 1 + 1 + 1) (k + 1) n 2 Status.shipped)) { out_of_order = true }
      ∷ plain (event_at (n + 1) (k + 1) n 0 Status.created)
      ∷ plain (event_at (n + 1 + 1) (k + 1) n 1 Status.paid)
      ∷ []
  script_events cancelled_last n k = statuses_events is_cancelled n (k + 1) n 0 whole_lifecycle
  script_events (in_order statuses) n k = statuses_events (λ _. false) n (k + 1) n 0 statuses

  unfoldable pub plan_events : List Script → ℕ → ℕ → List GeneratedEvent
  unfolding script_events
  plan_events [] n k = []
  plan_events (script ∷ scripts) n k =
      script_events script n k ++ plan_events scripts (n + script_size script) (k + 1)

-- The scripts of the three phases.
unfoldable pub late_scripts : ℕ → ℕ → List Script
late_scripts index zero = []
late_scripts index (suc rounds) =
    (if index % 2 == 0 then paid_first else shipped_first) ∷ late_scripts (index + 1) rounds

unfoldable pub invalid_scripts : ℕ → List Script
invalid_scripts zero = []
invalid_scripts (suc rounds) = cancelled_last ∷ invalid_scripts rounds

-- `fuel` bounds the orders, and `count` is the number of events.
unfoldable pub normal_scripts : (ℕ → ℕ) → ℕ → ℕ → ℕ → List Script
unfolding lifecycle
normal_scripts draw drawn fuel zero = []
normal_scripts draw drawn zero (suc count) = []
normal_scripts draw drawn (suc fuel) (suc count) =
    let statuses = take (suc count) (lifecycle (draw drawn % 5)) in
    in_order statuses ∷ normal_scripts draw (drawn + 1) fuel (suc count - length statuses)

-- What has been counted, and how many duplicates are still to come.
pub record Tally : Type 0 where
  pub remaining : ℤ
  pub published : ℕ
  pub unique : ℕ
  pub duplicates : ℕ
  pub out_of_order : ℕ
  pub invalid : ℕ

-- A unique event is followed by its duplicate, while duplicates are to come.
abbrev pub with_duplicate : GeneratedEvent → Tally → List GeneratedEvent
with_duplicate e t = if is_nonzero t.remaining then e ∷ duplicate_of e ∷ [] else e ∷ []

abbrev pub tally_unique : GeneratedEvent → Tally → Tally
tally_unique e t = record t {
  published = t.published + 1;
  unique = t.unique + 1;
  out_of_order = t.out_of_order + (if e.out_of_order then 1 else 0);
  invalid = t.invalid + (if e.invalid then 1 else 0);
}

abbrev pub tally_duplicate : Tally → Tally
tally_duplicate t = record t {
  remaining = t.remaining -ℤ pos 1;
  published = t.published + 1;
  duplicates = t.duplicates + 1;
}

abbrev pub tally : GeneratedEvent → Tally → Tally
tally e t = if is_nonzero t.remaining then tally_duplicate (tally_unique e t) else tally_unique e t

unfoldable pub with_duplicates : List GeneratedEvent → Tally → List GeneratedEvent
with_duplicates [] t = []
with_duplicates (e ∷ es) t = with_duplicate e t ++ with_duplicates es (tally e t)

unfoldable pub tally_all : List GeneratedEvent → Tally → Tally
tally_all [] t = t
tally_all (e ∷ es) t = tally_all es (tally e t)
