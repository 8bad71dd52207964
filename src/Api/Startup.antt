-- ===== src/Api/Startup.antt =====
-- What the settings of cmd/api/main.go guarantee when the pool and the reclaimer are made of them.
use Prim.Native.String.{◌++◌ as str_append}
use Prim.Native.String.{count}
use text.Mathlib.TextLemmas.{length-append}
use senior_backend_order_ing.Prelude.{
  ℕ, ◌+◌, ◌*◌, ◌^◌, ◌≤◌, ◌<◌, ◌≡◌, ◌↔◌, refl, ap, sym, ◌∙◌, String, true, false, some, List, ok,
  err, str_eq, eq_iff, Bool-cases, inl, inr, arith,
}
use senior_backend_order_ing.Prelude.Results.{Ensures, Ensures-bind, Ensures-ok}
use senior_backend_order_ing.Prelude.Int.{
  ℤ, pos, negsuc, is_positive, sub_ℕ, pos_part, ◌*ℤ◌, wrap64, mul_pos,
}
use senior_backend_order_ing.Monitoring.Collector.{Collector}
use senior_backend_order_ing.Worker.Interfaces.{EventProcessor, StreamQueue, PendingQueue}
use senior_backend_order_ing.Worker.Simulator.{new_ack_failure_simulator}
use senior_backend_order_ing.Worker.Setup.{
  SetupError, first_collector, with_backoff, check_pool_config, check_reclaimer_config, new_pool,
  new_reclaimer,
}
use senior_backend_order_ing.Api.Settings.{
  Process, Settings, required_env, env_or_default, positive_int_env, non_negative_uint_env,
  read_settings, seconds, pool_config, reclaimer_config,
}

-- What every value of the settings is checked for.
pub record IsUsable (s : Settings) : Type 0 where
  pub dsn_given : str_eq s.postgres_dsn "" ≡ false
  pub redis_given : str_eq s.redis_addr "" ≡ false
  pub worker_count_positive : is_positive s.worker_count ≡ true
  pub read_count_positive : is_positive s.read_count ≡ true
  pub interval_positive : is_positive s.reclaim_interval_seconds ≡ true
  pub min_idle_positive : is_positive s.reclaim_min_idle_seconds ≡ true
  pub reclaim_count_positive : is_positive s.reclaim_count ≡ true
  pub prefix_given : str_eq s.consumer_prefix "" ≡ false

required_env_given :
    (p : Process) (name : String) → Ensures (required_env p name) (λ text. str_eq text "" ≡ false)
unfolding required_env
required_env_given p name = record { holds = λ text h. ground arith }

positive_int_env_positive :
    (p : Process) (name : String) (fallback : ℤ)
    → is_positive fallback ≡ true
    → Ensures (positive_int_env p name fallback) (λ n. is_positive n ≡ true)
unfolding positive_int_env
positive_int_env_positive p name fallback h = record { holds = λ n e. ground arith }

any_natural :
    (p : Process) (name : String) (fallback : ℕ)
    → Ensures (non_negative_uint_env p name fallback) (λ n. Unit {0})
any_natural p name fallback = record { holds = λ n e. tt }

env_or_default_given :
    (p : Process) (name fallback : String)
    → str_eq fallback "" ≡ false
    → str_eq (env_or_default p name fallback) "" ≡ false
unfolding env_or_default
env_or_default_given p name fallback h = ground arith

-- Settings that run reads are usable.
pub read_settings-IsUsable : (p : Process) (s : Settings) → read_settings p ≡ ok s → IsUsable s
unfolding read_settings
read_settings-IsUsable p s h = usable.holds s h
  where
    usable : Ensures (read_settings p) (λ s'. IsUsable s')
    usable = Ensures-bind _ _ (required_env_given p "POSTGRES_DSN") (λ dsn dsn_given.
        Ensures-bind _ _ (required_env_given p "REDIS_ADDR") (λ redis redis_given.
          Ensures-bind _ _ (positive_int_env_positive p "WORKER_COUNT" (pos 4) (ground arith))
            (λ workers workers_positive.
              Ensures-bind _ _
                (positive_int_env_positive p "WORKER_READ_COUNT" (pos 10) (ground arith))
                (λ reads reads_positive.
                  Ensures-bind _ _ (any_natural p "SIMULATE_ACK_FAILURE_AFTER" 0) (λ after u.
                    Ensures-bind _ _ (any_natural p "SIMULATE_ACK_FAILURE_COUNT" 0) (λ skips v.
                      Ensures-bind _ _
                        (positive_int_env_positive p "RECLAIM_INTERVAL_SECONDS" (pos 5)
                          (ground arith))
                        (λ interval interval_positive.
                          Ensures-bind _ _
                            (positive_int_env_positive p "RECLAIM_MIN_IDLE_SECONDS" (pos 30)
                              (ground arith))
                            (λ idle idle_positive.
                              Ensures-bind _ _
                                (positive_int_env_positive p "RECLAIM_COUNT" reads reads_positive)
                                (λ claims claims_positive. Ensures-ok _ (record {
                                  dsn_given = dsn_given;
                                  redis_given = redis_given;
                                  worker_count_positive = workers_positive;
                                  read_count_positive = reads_positive;
                                  interval_positive = interval_positive;
                                  min_idle_positive = idle_positive;
                                  reclaim_count_positive = claims_positive;
                                  prefix_given =
                                      env_or_default_given p "REDIS_CONSUMER_PREFIX" "app"
                                        (ground arith);
                                }))))))))))

named_reclaimer : (prefix : String) → str_eq (str_append prefix "-reclaimer") "" ≡ false
named_reclaimer prefix = elim (Bool-cases (str_eq (str_append prefix "-reclaimer") "")) [
  | inl empty ↦
      let same = (eq_iff (str_append prefix "-reclaimer") "").0 empty in
      let size = sym (length-append prefix "-reclaimer") ∙ ap count same in absurd (omega arith)
  | inr given ↦ given
]

wrap64_below : (a : ℤ) → pos_part (wrap64 a) < 2 ^ 63
unfolding wrap64
wrap64_below (pos n) = ground arith
wrap64_below (negsuc n) = ground arith

-- A positive number of seconds is a duration of int64 nanoseconds exactly up to 9223372036 seconds.
pub seconds_exact :
    (n : ℕ) → n < 2 ^ 63 → (seconds (pos n) ≡ pos (n * 1000000000)) ↔ (n ≤ 9223372036)
unfolding seconds ◌*ℤ◌
seconds_exact n small = (
  λ exact.
      let below = wrap64_below (sub_ℕ (n * 1000000000 + 0) (n * 0 + 0 * 1000000000)) in
      let same : pos_part (seconds (pos n)) ≡ n * 1000000000 = ap pos_part exact in omega arith,
  λ le. mul_pos n 1000000000 (omega arith),
)

positive_seconds : (n : ℕ) → is_positive (pos n) ≡ true → is_positive (pos (n * 1000000000)) ≡ true
positive_seconds n h = ground arith

-- Above that, up to 18446744073 seconds, the duration is negative.
seconds_negative :
    (n : ℕ) → 9223372036 < n → n ≤ 18446744073 → is_positive (seconds (pos n)) ≡ false
unfolding seconds ◌*ℤ◌ wrap64
seconds_negative n low high = ground arith

module _ {S : Type 0} (p : Process) (s : Settings) (read : read_settings p ≡ ok s)
    (processor : EventProcessor S) (collectors : List Collector) where
  -- From settings that run reads without an error, whatever the environment: NewPool accepts the
  -- worker configuration that run makes of them, keeps it, and fills in the back-off of 250 ms.
  pub new_pool-read_settings :
      (queue : StreamQueue S)
      → new_pool (some queue) (some processor) (pool_config s) collectors
        ≡ ok (record {
          queue = queue;
          processor = processor;
          config = record (pool_config s) { read_error_backoff = pos 250000000 };
          metrics = first_collector collectors;
          simulator = new_ack_failure_simulator (pool_config s).failure_simulation;
        })
  unfolding new_pool check_pool_config with_backoff pool_config
  new_pool-read_settings queue =
      let usable = read_settings-IsUsable p s read in
      rw (usable.worker_count_positive, usable.prefix_given, usable.read_count_positive) refl

  -- From settings that run reads without an error, with a reclaim interval and an idle time of at most
  -- 9223372036 seconds: NewReclaimer accepts the reclaimer configuration that run makes of them, with
  -- these durations in nanoseconds, the count of the settings, and the consumer named after the prefix.
  pub new_reclaimer-read_settings :
      (pending : PendingQueue S) (interval idle : ℕ)
      → s.reclaim_interval_seconds ≡ pos interval
      → s.reclaim_min_idle_seconds ≡ pos idle
      → interval ≤ 9223372036
      → idle ≤ 9223372036
      → new_reclaimer (some pending) (some processor) (reclaimer_config s) collectors
        ≡ ok (record {
          queue = pending;
          processor = processor;
          config = record {
            consumer_name = str_append s.consumer_prefix "-reclaimer";
            interval = pos (interval * 1000000000);
            min_idle = pos (idle * 1000000000);
            count = s.reclaim_count;
          };
          metrics = first_collector collectors;
        })
  unfolding new_reclaimer check_reclaimer_config reclaimer_config
  new_reclaimer-read_settings pending interval idle is_interval is_idle interval_le idle_le =
      let usable = read_settings-IsUsable p s read in
      let interval_exact = (seconds_exact interval (omega arith)).1 interval_le in
      let idle_exact = (seconds_exact idle (omega arith)).1 idle_le in
      let interval_positive =
        positive_seconds interval (rw is_interval at usable.interval_positive) in
      let idle_positive = positive_seconds idle (rw is_idle at usable.min_idle_positive) in
      rw
        (
          named_reclaimer s.consumer_prefix,
          is_interval,
          is_idle,
          interval_exact,
          idle_exact,
          interval_positive,
          idle_positive,
          usable.reclaim_count_positive,
        )
        refl

  -- With an interval of 9223372037 to 18446744073 seconds, run makes no reclaimer: the interval has
  -- become negative.
  pub new_reclaimer-seconds :
      (pending : PendingQueue S) (interval : ℕ)
      → s.reclaim_interval_seconds ≡ pos interval
      → 9223372036 < interval
      → interval ≤ 18446744073
      → new_reclaimer (some pending) (some processor) (reclaimer_config s) collectors
        ≡ err SetupError.interval_not_positive
  unfolding new_reclaimer check_reclaimer_config reclaimer_config
  new_reclaimer-seconds pending interval is_interval low high =
      let usable = read_settings-IsUsable p s read in
      let negative = seconds_negative interval low high in
      rw (named_reclaimer s.consumer_prefix, is_interval, negative) refl
