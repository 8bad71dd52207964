-- ===== src/Monitoring/Collector.antt =====
-- Collector of metrics.go: its counters are atomic 64-bit words, and each update is one addition.
use senior_backend_order_ing.Prelude.{
  ℕ, ◌+◌, ◌%◌, ◌^◌, ◌≡◌, Bool, ltb, inl, inr, Bool-cases, if◌then◌else◌, arith,
}
use senior_backend_order_ing.Domain.{Classification}
use senior_backend_order_ing.Repository.Process.{ProcessResult}

pub record Collector : Type 0 where
  pub processed : ℕ
  pub applied : ℕ
  pub duplicates_skipped : ℕ
  pub duplicate_status : ℕ
  pub out_of_order : ℕ
  pub invalid_transitions : ℕ
  pub dead_letters : ℕ
  pub failures : ℕ
  pub simulated_failures : ℕ
  pub recovered_messages : ℕ
  pub pending_replayed : ℕ

-- newCollectorAt; the start time plays no part in the counters.
abbrev pub new_collector : Collector
new_collector = record {
  processed = 0;
  applied = 0;
  duplicates_skipped = 0;
  duplicate_status = 0;
  out_of_order = 0;
  invalid_transitions = 0;
  dead_letters = 0;
  failures = 0;
  simulated_failures = 0;
  recovered_messages = 0;
  pending_replayed = 0;
}

-- `atomic.Uint64.Add`
abbrev pub add_uint64 : ℕ → ℕ → ℕ
add_uint64 counter delta = (counter + delta) % 2 ^ 64

unfoldable pub record_replayed : ℕ → Collector → Collector
record_replayed n c =
    if ltb 0 n then record c { pending_replayed = add_uint64 c.pending_replayed n } else c

-- The `switch` of RecordResult.
unfoldable pub record_classification : Classification → Bool → Collector → Collector
record_classification Classification.applied dead_letter c = record c {
  processed = add_uint64 c.processed 1;
  applied = add_uint64 c.applied 1;
}
record_classification Classification.duplicate_event dead_letter c = record c {
  processed = add_uint64 c.processed 1;
  duplicates_skipped = add_uint64 c.duplicates_skipped 1;
}
record_classification Classification.duplicate_status dead_letter c = record c {
  processed = add_uint64 c.processed 1;
  duplicate_status = add_uint64 c.duplicate_status 1;
}
record_classification Classification.out_of_order dead_letter c = record c {
  processed = add_uint64 c.processed 1;
  out_of_order = add_uint64 c.out_of_order 1;
}
record_classification Classification.invalid_transition dead_letter c = record c {
  processed = add_uint64 c.processed 1;
  invalid_transitions = add_uint64 c.invalid_transitions 1;
  dead_letters = if dead_letter then add_uint64 c.dead_letters 1 else c.dead_letters;
}

unfoldable pub record_result : ProcessResult → Collector → Collector
unfolding record_replayed record_classification
record_result result c =
    record_classification result.classification result.dead_letter
      (record_replayed result.replayed_pending c)

unfoldable pub record_failure : Collector → Collector
record_failure c = record c { failures = add_uint64 c.failures 1 }

unfoldable pub record_simulated_failure : Collector → Collector
record_simulated_failure c = record c { simulated_failures = add_uint64 c.simulated_failures 1 }

unfoldable pub record_recovered : Collector → Collector
record_recovered c = record c { recovered_messages = add_uint64 c.recovered_messages 1 }

-- Every processed result is in exactly one class, modulo 2^64 as all counters are.
abbrev pub IsBalanced : Collector → Type 0
IsBalanced c =
    c.processed
    ≡ (c.applied + c.duplicates_skipped + c.duplicate_status + c.out_of_order
        + c.invalid_transitions)
      % 2 ^ 64

record_classification-IsBalanced :
    (k : Classification) (dead_letter : Bool) (c : Collector)
    → IsBalanced c
    → IsBalanced (record_classification k dead_letter c)
unfolding record_classification
record_classification-IsBalanced Classification.applied dead_letter c h = omega arith
record_classification-IsBalanced Classification.duplicate_event dead_letter c h = omega arith
record_classification-IsBalanced Classification.duplicate_status dead_letter c h = omega arith
record_classification-IsBalanced Classification.out_of_order dead_letter c h = omega arith
record_classification-IsBalanced Classification.invalid_transition dead_letter c h = omega arith

record_replayed-IsBalanced :
    (n : ℕ) (c : Collector) → IsBalanced c → IsBalanced (record_replayed n c)
unfolding record_replayed
record_replayed-IsBalanced n c h = elim (Bool-cases (ltb 0 n)) [
  | inl some_replayed ↦ rw some_replayed h
  | inr none_replayed ↦ rw none_replayed h
]

-- Recording a result keeps the balance, also when a counter wraps around: the processed results are
-- those of the five classes together, modulo 2^64.
pub record_result-IsBalanced :
    (result : ProcessResult) (c : Collector) → IsBalanced c → IsBalanced (record_result result c)
unfolding record_result
record_result-IsBalanced result c h =
    record_classification-IsBalanced result.classification result.dead_letter _
      (record_replayed-IsBalanced result.replayed_pending c h)
