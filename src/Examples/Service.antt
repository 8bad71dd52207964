-- ===== src/Examples/Service.antt =====
-- The service configured by an environment that sets what is required, and one with a long interval.
use Prim.Native.String.{◌++◌ as str_append}
use senior_backend_order_ing.Prelude.{
  ◌-◌, ◌/◌, ltb, true, ℕ, ◌*◌, ◌≡◌, ◌≤◌, ◌↔◌, refl, none, some, [], ok, err, str_eq, if◌then◌else◌,
  arith,
}
use senior_backend_order_ing.Prelude.Int.{pos}
use senior_backend_order_ing.Monitoring.Collector.{new_collector}
use senior_backend_order_ing.Monitoring.Stats.{
  Measures, QueueDepthProvider, StatsAnswer, stats_response, serve_stats,
}
use senior_backend_order_ing.Monitoring.Answers.{IsResponseOf, serve_stats-queue_error}
use senior_backend_order_ing.Worker.Simulator.{new_ack_failure_simulator}
use senior_backend_order_ing.Worker.Delivery.{processor, stream_queue, pending_queue}
use senior_backend_order_ing.Worker.Setup.{SetupError, new_pool, new_reclaimer}
use senior_backend_order_ing.Api.Settings.{
  Process, Settings, read_settings, required_env, env_or_default, positive_int_env,
  non_negative_uint_env, seconds, pool_config, reclaimer_config,
}
use senior_backend_order_ing.Api.Startup.{
  seconds_exact, new_pool-read_settings, new_reclaimer-read_settings, new_reclaimer-seconds,
}
use senior_backend_order_ing.Examples.Fixtures.{calm}
use senior_backend_order_ing.Examples.Workers.{stream, stale}

-- Every number is read as `n`.
abbrev process_of : ℕ → Process
process_of n = record {
  getenv = λ name.
      if str_eq name "RECLAIM_INTERVAL_SECONDS"
      then "n"
      else if str_eq name "POSTGRES_DSN"
      then "postgres://orders"
      else if str_eq name "REDIS_ADDR"
      then "localhost:6379"
      else "";
  atoi = λ text. some (pos n);
  parse_uint = λ text. none;
}

abbrev settings_of : ℕ → Settings
settings_of n = record {
  postgres_dsn = "postgres://orders";
  redis_addr = "localhost:6379";
  worker_count = pos 4;
  read_count = pos 10;
  simulate_ack_failure_after = 0;
  simulate_ack_failure_count = 0;
  reclaim_interval_seconds = pos n;
  reclaim_min_idle_seconds = pos 30;
  reclaim_count = pos 10;
  addr = ":8080";
  consumer_prefix = "app";
}

read_15 : read_settings (process_of 15) ≡ ok (settings_of 15)
unfolding read_settings required_env env_or_default positive_int_env non_negative_uint_env
read_15 = refl

read_long : read_settings (process_of 9223372037) ≡ ok (settings_of 9223372037)
unfolding read_settings required_env env_or_default positive_int_env non_negative_uint_env
read_long = refl

seconds_exact_example : (seconds (pos 15) ≡ pos (15 * 1000000000)) ↔ (15 ≤ 9223372036)
seconds_exact_example = seconds_exact 15 (omega arith)

new_pool-read_settings_example :
    new_pool (some (stream_queue stream)) (some (processor calm)) (pool_config (settings_of 15)) []
    ≡ ok (record {
      queue = stream_queue stream;
      processor = processor calm;
      config = record (pool_config (settings_of 15)) { read_error_backoff = pos 250000000 };
      metrics = none;
      simulator = new_ack_failure_simulator (pool_config (settings_of 15)).failure_simulation;
    })
new_pool-read_settings_example =
    new_pool-read_settings (process_of 15) (settings_of 15) read_15 (processor calm) []
      (stream_queue stream)

new_reclaimer-read_settings_example :
    new_reclaimer
      (some (pending_queue stale))
      (some (processor calm))
      (reclaimer_config (settings_of 15))
      []
    ≡ ok (record {
      queue = pending_queue stale;
      processor = processor calm;
      config = record {
        consumer_name = str_append "app" "-reclaimer";
        interval = pos (15 * 1000000000);
        min_idle = pos (30 * 1000000000);
        count = pos 10;
      };
      metrics = none;
    })
new_reclaimer-read_settings_example =
    new_reclaimer-read_settings (process_of 15) (settings_of 15) read_15 (processor calm) []
      (pending_queue stale) 15 30 refl refl (omega arith) (omega arith)

new_reclaimer-seconds_example :
    new_reclaimer
      (some (pending_queue stale))
      (some (processor calm))
      (reclaimer_config (settings_of 9223372037))
      []
    ≡ err SetupError.interval_not_positive
new_reclaimer-seconds_example =
    new_reclaimer-seconds (process_of 9223372037) (settings_of 9223372037) read_long
      (processor calm) [] (pending_queue stale) 9223372037 refl (omega arith) (omega arith)

-- Whole seconds; and a queue that does not know its length.
abbrev whole_seconds : Measures ℕ
whole_seconds = record {
  seconds_between = λ now started. (now - started) / 1000000000;
  of_uint64 = λ n. n;
  divide = λ a b. a / b;
  less = ltb;
  zero_float = 0;
}

abbrev depths : QueueDepthProvider (Unit {0})
depths = record {
  queue_depth = λ s. (ok 3, s);
  stream_length = λ s. (err "timeout", s);
  pending_count = λ s. (ok 1, s);
}

serve_stats-queue_error_example :
    let response =
      stats_response whole_seconds
        (λ r. true)
        0
        depths
        (pos 4)
        new_collector
        5000000000
        (ok 3)
        (err "timeout")
        (ok 1) in
    (serve_stats whole_seconds (λ r. true) 0 depths (pos 4) "GET" new_collector 5000000000 tt
      ≡ (StatsAnswer.answered response, tt))
    × IsResponseOf whole_seconds 0
        (pos 4)
        new_collector
        5000000000
        (ok 3)
        (err "timeout")
        (ok 1)
        response
serve_stats-queue_error_example =
    serve_stats-queue_error whole_seconds (λ r. true) 0 depths (pos 4) new_collector 5000000000 tt
      refl
