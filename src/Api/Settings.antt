-- ===== src/Api/Settings.antt =====
-- The settings that run of cmd/api/main.go reads from the environment, and what it makes of them.
use Prim.Native.String.{◌++◌ as str_append}
use senior_backend_order_ing.Prelude.{
  ℕ, String, Option, none, some, Result, ok, err, str_eq, if◌then◌else◌,
}
use senior_backend_order_ing.Prelude.Results.{◌>>=◌}
use senior_backend_order_ing.Prelude.Int.{ℤ, pos, is_positive, ◌*ℤ◌}
use senior_backend_order_ing.Worker.Setup.{PoolConfig, ReclaimerConfig}

-- What is outside: os.Getenv, strconv.Atoi and strconv.ParseUint.
pub record Process : Type 0 where
  pub getenv : String → String
  pub atoi : String → Option ℤ
  pub parse_uint : String → Option ℕ

-- The errors name the variable.
pub data SettingError : Type 0 where
  missing not_positive not_natural : String → SettingError

unfoldable pub required_env : Process → String → Result SettingError String
required_env p name =
    if str_eq (p.getenv name) "" then err (SettingError.missing name) else ok (p.getenv name)

unfoldable pub env_or_default : Process → String → String → String
env_or_default p name fallback = if str_eq (p.getenv name) "" then fallback else p.getenv name

-- `parsed, err := strconv.Atoi(value)` and the test after it.
abbrev pub positive_or : String → Option ℤ → Result SettingError ℤ
positive_or name none = err (SettingError.not_positive name)
positive_or name (some n) = if is_positive n then ok n else err (SettingError.not_positive name)

unfoldable pub positive_int_env : Process → String → ℤ → Result SettingError ℤ
positive_int_env p name fallback =
    if str_eq (p.getenv name) "" then ok fallback else positive_or name (p.atoi (p.getenv name))

abbrev pub natural_or : String → Option ℕ → Result SettingError ℕ
natural_or name none = err (SettingError.not_natural name)
natural_or name (some n) = ok n

unfoldable pub non_negative_uint_env : Process → String → ℕ → Result SettingError ℕ
non_negative_uint_env p name fallback =
    if str_eq (p.getenv name) ""
    then ok fallback
    else natural_or name (p.parse_uint (p.getenv name))

pub record Settings : Type 0 where
  pub postgres_dsn : String
  pub redis_addr : String
  pub worker_count : ℤ
  pub read_count : ℤ
  pub simulate_ack_failure_after : ℕ
  pub simulate_ack_failure_count : ℕ
  pub reclaim_interval_seconds : ℤ
  pub reclaim_min_idle_seconds : ℤ
  pub reclaim_count : ℤ
  pub addr : String
  pub consumer_prefix : String

-- The first part of run.
unfoldable pub read_settings : Process → Result SettingError Settings
read_settings p = do
  postgres_dsn ← required_env p "POSTGRES_DSN"
  redis_addr ← required_env p "REDIS_ADDR"
  worker_count ← positive_int_env p "WORKER_COUNT" (pos 4)
  read_count ← positive_int_env p "WORKER_READ_COUNT" (pos 10)
  after ← non_negative_uint_env p "SIMULATE_ACK_FAILURE_AFTER" 0
  count ← non_negative_uint_env p "SIMULATE_ACK_FAILURE_COUNT" 0
  interval ← positive_int_env p "RECLAIM_INTERVAL_SECONDS" (pos 5)
  min_idle ← positive_int_env p "RECLAIM_MIN_IDLE_SECONDS" (pos 30)
  reclaim_count ← positive_int_env p "RECLAIM_COUNT" read_count
  ok (record {
    postgres_dsn = postgres_dsn;
    redis_addr = redis_addr;
    worker_count = worker_count;
    read_count = read_count;
    simulate_ack_failure_after = after;
    simulate_ack_failure_count = count;
    reclaim_interval_seconds = interval;
    reclaim_min_idle_seconds = min_idle;
    reclaim_count = reclaim_count;
    addr = env_or_default p "HTTP_ADDR" ":8080";
    consumer_prefix = env_or_default p "REDIS_CONSUMER_PREFIX" "app";
  })

-- `time.Duration(n) * time.Second`, in nanoseconds
unfoldable pub seconds : ℤ → ℤ
seconds n = n *ℤ pos 1000000000

-- The worker.Config of run.
unfoldable pub pool_config : Settings → PoolConfig
pool_config s = record {
  worker_count = s.worker_count;
  consumer_prefix = s.consumer_prefix;
  read_count = s.read_count;
  block = pos 2000000000;
  read_error_backoff = pos 0;
  failure_simulation = record {
    after = s.simulate_ack_failure_after;
    count = s.simulate_ack_failure_count;
  };
}

-- The worker.ReclaimerConfig of run.
unfoldable pub reclaimer_config : Settings → ReclaimerConfig
unfolding seconds
reclaimer_config s = record {
  consumer_name = str_append s.consumer_prefix "-reclaimer";
  interval = seconds s.reclaim_interval_seconds;
  min_idle = seconds s.reclaim_min_idle_seconds;
  count = s.reclaim_count;
}
