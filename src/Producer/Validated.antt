-- ===== src/Producer/Validated.antt =====
-- What a configuration that validate of generator.go accepts has passed.
use senior_backend_order_ing.Prelude.{
  ℕ, ◌≤◌, ◌≡◌, refl, String, Bool, true, false, not, Result, ok, str_eq,
}
use senior_backend_order_ing.Prelude.Results.{◌>>◌}
use senior_backend_order_ing.Prelude.Int.{ℤ, pos, pos_part, is_positive}
use senior_backend_order_ing.Producer.Config.{
  Floats, ProducerConfig, ConfigError, require, is_out_of_range, ratio_count, check_ratio,
  check_counts, validate, duplicate_count, out_of_order_count, invalid_count,
}

-- What the code relies on of floating-point numbers: the floor of `total` times a ratio between 0 and
-- 1 is a number between 0 and `total`. It holds when `total` is exact as a float64.
pub record RatioLaw {F : Type 0} (floats : Floats F) (total : ℕ) : Type 0 where
  pub within :
      (ratio : F)
      → is_out_of_range floats ratio ≡ false
      → let n = pos_part (ratio_count floats (pos total) ratio) in
        (ratio_count floats (pos total) ratio ≡ pos n) × (n ≤ total)

-- A check that passes, and what follows it.
require_then :
    (b : Bool) (e : ConfigError) (k : Result ConfigError (Unit {0}))
    → (require b e >> k) ≡ ok tt
    → (b ≡ true) × (k ≡ ok tt)
require_then true e k h = (refl, h)
require_then false e k h = absurd (cc h)

not-true : (b : Bool) → not b ≡ true → b ≡ false
not-true true h = absurd (cc h)
not-true false h = refl

ratio_then :
    {F : Type 0} (floats : Floats F) (name : String) (v : F) (k : Result ConfigError (Unit {0}))
    → (check_ratio floats name v >> k) ≡ ok tt
    → (is_out_of_range floats v ≡ false) × (k ≡ ok tt)
unfolding check_ratio
ratio_then floats name v k h =
    let (a, b) =
      require_then (not (is_out_of_range floats v)) (ConfigError.ratio_out_of_range name) k h in
    (not-true _ a, b)

-- What a validated configuration has passed.
pub validate_parts :
    {F : Type 0} (floats : Floats F) (c : ProducerConfig F)
    → validate floats c ≡ ok tt
    → (is_out_of_range floats c.duplicate_ratio ≡ false)
      × (is_out_of_range floats c.out_of_order_ratio ≡ false)
      × (is_out_of_range floats c.invalid_ratio ≡ false)
      × (check_counts c.total
            (duplicate_count floats c)
            (out_of_order_count floats c)
            (invalid_count floats c)
          ≡ ok tt)
unfolding validate
validate_parts floats c h =
    let (a1, b1) = require_then (is_positive c.total) ConfigError.total_not_positive _ h in
    let (a2, b2) =
      require_then (is_positive c.batch_size) ConfigError.batch_size_not_positive _ b1 in
    let (a3, b3) = require_then (not (str_eq c.redis_addr "")) ConfigError.no_redis_addr _ b2 in
    let (a4, b4) = require_then (not (str_eq c.stream "")) ConfigError.no_stream _ b3 in
    let (a5, b5) = require_then (not (str_eq c.group "")) ConfigError.no_group _ b4 in
    let (a6, b6) = ratio_then floats "duplicate ratio" c.duplicate_ratio _ b5 in
    let (a7, b7) = ratio_then floats "out-of-order ratio" c.out_of_order_ratio _ b6 in
    let (a8, b8) = ratio_then floats "invalid ratio" c.invalid_ratio _ b7 in (a6, a7, a8, b8)

pub same_counts :
    (total total' d d' late late' bad bad' : ℤ)
    → total ≡ total'
    → d ≡ d'
    → late ≡ late'
    → bad ≡ bad'
    → check_counts total d late bad ≡ check_counts total' d' late' bad'
same_counts total total' d d' late late' bad bad' o p q r = cc (o, p, q, r)
