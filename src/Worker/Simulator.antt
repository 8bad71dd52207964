-- ===== src/Worker/Simulator.antt =====
-- ackFailureSimulator of pool.go: after a number of successes, some acknowledgements are skipped.
use senior_backend_order_ing.Prelude.{
  ℕ, zero, suc, ◌+◌, ◌-◌, ◌<◌, ◌^◌, ◌≡◌, Bool, false, Option, none, some, leb, ◌==◌, ◌||◌,
  if◌then◌else◌, arith, min,
}
use senior_backend_order_ing.Monitoring.Collector.{add_uint64}

-- FailureSimulationConfig
pub record FailureSimulationConfig : Type 0 where
  pub after : ℕ
  pub count : ℕ

pub record Simulator : Type 0 where
  pub after : ℕ
  pub count : ℕ
  pub successful_processed : ℕ

-- newAckFailureSimulator; `none` is the nil pointer.
unfoldable pub new_ack_failure_simulator : FailureSimulationConfig → Option Simulator
new_ack_failure_simulator config =
    if config.after == 0 || config.count == 0
    then none
    else some (record { after = config.after; count = config.count; successful_processed = 0 })

-- shouldSkipAck, with the counter's new value
unfoldable pub should_skip_ack : Simulator → Bool × Simulator
should_skip_ack s =
    let position = add_uint64 s.successful_processed 1 in
    (
      (if leb position s.after then false else leb (position - s.after) s.count),
      record s { successful_processed = position },
    )

-- The answers to `n` calls in a row, the first call's first.
unfoldable pub answers : ℕ → Simulator → ℕ
unfolding should_skip_ack
answers zero s = 0
answers (suc n) s = let (skip, s') = should_skip_ack s in (if skip then 1 else 0) + answers n s'

-- Of `n` calls in a row, as many are skipped as lie in the window of `count` successes after the
-- first `after`, as long as the counter does not wrap around.
pub answers_window :
    (n : ℕ) (s : Simulator)
    → s.successful_processed + n < 2 ^ 64
    → answers n s + min (s.successful_processed - s.after) s.count
      ≡ min (s.successful_processed + n - s.after) s.count
unfolding answers
answers_window zero s h = omega arith
answers_window (suc n) s h =
    let next : add_uint64 s.successful_processed 1 ≡ s.successful_processed + 1 = omega arith in
    let window =
      answers_window n (record s { successful_processed = s.successful_processed + 1 })
        (omega arith) in
    rw next (ground (arith, window))

-- A fresh simulator skips exactly the acknowledgements of the successes after+1 to after+count: of
-- the first `n` successes, min (n - after) count.
pub answers-fresh :
    (after count n : ℕ)
    → n < 2 ^ 64
    → answers n (record { after = after; count = count; successful_processed = 0 })
      ≡ min (n - after) count
answers-fresh after count n h =
    let window =
      answers_window n (record { after = after; count = count; successful_processed = 0 })
        (omega arith) in
    omega arith
