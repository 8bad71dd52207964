-- ===== src/Producer/Config.antt =====
-- producerConfig of generator.go, its validation, and the counts that its ratios stand for.
use senior_backend_order_ing.Prelude.{
  String, Bool, true, false, not, ◌&&◌, ◌||◌, Result, ok, err, str_eq,
}
use senior_backend_order_ing.Prelude.Results.{◌>>◌}
use senior_backend_order_ing.Prelude.Int.{
  ℤ, pos, ◌+ℤ◌, ◌-ℤ◌, ◌*ℤ◌, half, ltb_ℤ, is_positive, is_nonzero,
}

-- `float64` with what the code uses of it.
pub record Floats (F : Type 0) : Type 0 where
  pub of_int : ℤ → F
  pub multiply : F → F → F
  pub floor : F → F
  pub to_int : F → ℤ
  pub is_nan : F → Bool
  pub is_inf : F → Bool
  pub less : F → F → Bool
  pub zero_float : F
  pub one_float : F

pub record ProducerConfig (F : Type 0) : Type 0 where
  pub total : ℤ
  pub duplicate_ratio : F
  pub out_of_order_ratio : F
  pub invalid_ratio : F
  pub redis_addr : String
  pub stream : String
  pub group : String
  pub seed : ℤ
  pub batch_size : ℤ

pub data ConfigError : Type 0 where
  total_not_positive batch_size_not_positive no_redis_addr no_stream no_group : ConfigError
  ratio_out_of_range : String → ConfigError
  nothing_to_duplicate : ConfigError
  too_few_unique : ℤ → ℤ → ConfigError

abbrev pub require : Bool → ConfigError → Result ConfigError (Unit {0})
require true e = ok tt
require false e = err e

unfoldable pub out_of_order_scenario_size : ℤ → ℤ
out_of_order_scenario_size count =
    let paid_before_created = half (count +ℤ pos 1) in
    let shipped_before_paid = half count in
    pos 2 *ℤ paid_before_created +ℤ pos 3 *ℤ shipped_before_paid

-- The tests of the counts, after those of the fields.
unfoldable pub check_counts : ℤ → ℤ → ℤ → ℤ → Result ConfigError (Unit {0})
unfolding out_of_order_scenario_size
check_counts total duplicates out_of_order invalid = do
  let unique = total -ℤ duplicates
  require (not (ltb_ℤ (pos 0) duplicates && not (is_nonzero unique)))
      ConfigError.nothing_to_duplicate
  let required = out_of_order_scenario_size out_of_order +ℤ pos 4 *ℤ invalid
  require (not (ltb_ℤ unique required)) (ConfigError.too_few_unique required unique)

module _ {F : Type 0} (floats : Floats F) where
  -- `math.IsNaN(v) || math.IsInf(v, 0) || v < 0 || v > 1`
  unfoldable pub is_out_of_range : F → Bool
  is_out_of_range v =
      floats.is_nan v
      || (floats.is_inf v || (floats.less v floats.zero_float || floats.less floats.one_float v))

  unfoldable pub ratio_count : ℤ → F → ℤ
  ratio_count total ratio =
      floats.to_int (floats.floor (floats.multiply (floats.of_int total) ratio))

  unfoldable pub check_ratio : String → F → Result ConfigError (Unit {0})
  unfolding is_out_of_range
  check_ratio name v = require (not (is_out_of_range v)) (ConfigError.ratio_out_of_range name)

  -- The counts that the ratios stand for.
  abbrev pub duplicate_count : ProducerConfig F → ℤ
  duplicate_count c = ratio_count c.total c.duplicate_ratio

  abbrev pub out_of_order_count : ProducerConfig F → ℤ
  out_of_order_count c = ratio_count c.total c.out_of_order_ratio

  abbrev pub invalid_count : ProducerConfig F → ℤ
  invalid_count c = ratio_count c.total c.invalid_ratio

  unfoldable pub validate : ProducerConfig F → Result ConfigError (Unit {0})
  unfolding check_ratio check_counts
  validate c = do
    require (is_positive c.total) ConfigError.total_not_positive
    require (is_positive c.batch_size) ConfigError.batch_size_not_positive
    require (not (str_eq c.redis_addr "")) ConfigError.no_redis_addr
    require (not (str_eq c.stream "")) ConfigError.no_stream
    require (not (str_eq c.group "")) ConfigError.no_group
    check_ratio "duplicate ratio" c.duplicate_ratio
    check_ratio "out-of-order ratio" c.out_of_order_ratio
    check_ratio "invalid ratio" c.invalid_ratio
    check_counts c.total (duplicate_count c) (out_of_order_count c) (invalid_count c)
