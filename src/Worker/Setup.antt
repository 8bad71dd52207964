-- ===== src/Worker/Setup.antt =====
-- NewPool of pool.go and NewReclaimer of reclaimer.go: the checks of their configuration. Durations
-- are nanoseconds. The logger, which is never missing in the end, is left out.
use senior_backend_order_ing.Prelude.{
  String, Bool, true, false, Option, none, some, List, [], ◌∷◌, Result, ok, err, str_eq, not,
  if◌then◌else◌,
}
use senior_backend_order_ing.Prelude.Results.{◌>>=◌, ◌>>◌}
use senior_backend_order_ing.Prelude.Int.{ℤ, pos, pos_part, is_positive, ltb_ℤ}
use senior_backend_order_ing.Monitoring.Collector.{Collector}
use senior_backend_order_ing.Worker.Interfaces.{EventProcessor, StreamQueue, PendingQueue}
use senior_backend_order_ing.Worker.Simulator.{
  FailureSimulationConfig, Simulator, new_ack_failure_simulator,
}
use senior_backend_order_ing.Worker.Pool.{WorkerConfig}
use senior_backend_order_ing.Worker.Reclaimer.{ReclaimConfig}

-- Config of pool.go
pub record PoolConfig : Type 0 where
  pub worker_count : ℤ
  pub consumer_prefix : String
  pub read_count : ℤ
  pub block : ℤ
  pub read_error_backoff : ℤ
  pub failure_simulation : FailureSimulationConfig

-- ReclaimerConfig
pub record ReclaimerConfig : Type 0 where
  pub consumer_name : String
  pub interval : ℤ
  pub min_idle : ℤ
  pub count : ℤ

pub data SetupError : Type 0 where
  no_queue no_processor worker_count_not_positive no_consumer_prefix read_count_not_positive
        negative_block no_consumer_name interval_not_positive min_idle_not_positive
        count_not_positive :
      SetupError

abbrev pub require : Bool → SetupError → Result SetupError (Unit {0})
require true e = ok tt
require false e = err e

-- `if x == nil { return nil, e }`
abbrev pub present : {A : Type 0} → Option A → SetupError → Result SetupError A
present none e = err e
present (some a) e = ok a

-- The first of the collectors, if there is one.
abbrev pub first_collector : List Collector → Option Collector
first_collector [] = none
first_collector (c ∷ cs) = some c

-- 250 milliseconds
abbrev pub default_read_error_backoff : ℤ
default_read_error_backoff = pos 250000000

unfoldable pub with_backoff : PoolConfig → PoolConfig
with_backoff config =
    if is_positive config.read_error_backoff
    then config
    else record config { read_error_backoff = default_read_error_backoff }

unfoldable pub check_pool_config : PoolConfig → Result SetupError (Unit {0})
check_pool_config config = do
  require (is_positive config.worker_count) SetupError.worker_count_not_positive
  require (not (str_eq config.consumer_prefix "")) SetupError.no_consumer_prefix
  require (is_positive config.read_count) SetupError.read_count_not_positive
  require (not (ltb_ℤ config.block (pos 0))) SetupError.negative_block

unfoldable pub check_reclaimer_config : ReclaimerConfig → Result SetupError (Unit {0})
check_reclaimer_config config = do
  require (not (str_eq config.consumer_name "")) SetupError.no_consumer_name
  require (is_positive config.interval) SetupError.interval_not_positive
  require (is_positive config.min_idle) SetupError.min_idle_not_positive
  require (is_positive config.count) SetupError.count_not_positive

-- What runWorker reads of a checked configuration.
abbrev pub worker_config : PoolConfig → WorkerConfig
worker_config config = record {
  read_count = pos_part config.read_count;
  block = pos_part config.block;
  read_error_backoff = pos_part config.read_error_backoff;
}

-- What reclaim reads of a checked configuration.
abbrev pub reclaim_config : ReclaimerConfig → ReclaimConfig
reclaim_config config = record {
  consumer_name = config.consumer_name;
  min_idle = pos_part config.min_idle;
  count = pos_part config.count;
}

-- Pool of pool.go
pub record Pool (S : Type 0) : Type 0 where
  pub queue : StreamQueue S
  pub processor : EventProcessor S
  pub config : PoolConfig
  pub metrics : Option Collector
  pub simulator : Option Simulator

-- Reclaimer of reclaimer.go
pub record Reclaimer (S : Type 0) : Type 0 where
  pub queue : PendingQueue S
  pub processor : EventProcessor S
  pub config : ReclaimerConfig
  pub metrics : Option Collector

module _ {S : Type 0} where
  unfoldable pub new_pool :
      Option (StreamQueue S)
      → Option (EventProcessor S)
      → PoolConfig
      → List Collector
      → Result SetupError (Pool S)
  new_pool stream_queue event_processor config collectors = do
    queue ← present stream_queue SetupError.no_queue
    processor ← present event_processor SetupError.no_processor
    check_pool_config config
    ok (record {
      queue = queue;
      processor = processor;
      config = with_backoff config;
      metrics = first_collector collectors;
      simulator = new_ack_failure_simulator config.failure_simulation;
    })

  unfoldable pub new_reclaimer :
      Option (PendingQueue S)
      → Option (EventProcessor S)
      → ReclaimerConfig
      → List Collector
      → Result SetupError (Reclaimer S)
  new_reclaimer pending_queue event_processor config collectors = do
    queue ← present pending_queue SetupError.no_queue
    processor ← present event_processor SetupError.no_processor
    check_reclaimer_config config
    ok (record {
      queue = queue;
      processor = processor;
      config = config;
      metrics = first_collector collectors;
    })
