-- ===== src/Monitoring/Stats.antt =====
-- Snapshot and NewStatsHandler of metrics.go.
use Prim.Native.String.{◌++◌ as str_append}
use senior_backend_order_ing.Prelude.{
  ℕ, String, Bool, List, [], ◌∷◌, ◌++◌, Result, ok, err, str_eq, if◌then◌else◌,
}
use senior_backend_order_ing.Prelude.Int.{ℤ}
use senior_backend_order_ing.Monitoring.Collector.{Collector}

-- float64, and `now.Sub(startedAt).Seconds()` for two instants.
pub record Measures (F : Type 0) : Type 0 where
  pub seconds_between : ℕ → ℕ → F
  pub of_uint64 : ℕ → F
  pub divide : F → F → F
  pub less : F → F → Bool
  pub zero_float : F

pub record Snapshot (F : Type 0) : Type 0 where
  pub started_at : ℕ
  pub uptime_seconds : F
  pub processed : ℕ
  pub applied : ℕ
  pub duplicates_skipped : ℕ
  pub duplicate_status : ℕ
  pub out_of_order : ℕ
  pub invalid_transitions : ℕ
  pub dead_letters : ℕ
  pub failures : ℕ
  pub simulated_failures : ℕ
  pub recovered_messages : ℕ
  pub pending_replayed : ℕ
  pub throughput_per_second : F

pub record StatsResponse (F : Type 0) : Type 0 where
  pub snapshot : Snapshot F
  pub queue_depth : ℕ
  pub stream_length : ℕ
  pub pending_depth : ℕ
  pub worker_count : ℤ
  pub queue_error : String

-- QueueDepthProvider, with the texts of its errors
pub record QueueDepthProvider (S : Type 0) : Type 0 where
  pub queue_depth : S → Result String ℕ × S
  pub stream_length : S → Result String ℕ × S
  pub pending_count : S → Result String ℕ × S

-- 405 with the header Allow; 200 with the response; 500.
pub data StatsAnswer (F : Type 0) : Type 0 where
  method_not_allowed encode_failed : StatsAnswer F
  answered : StatsResponse F → StatsAnswer F

module _ {F : Type 0} (measures : Measures F) where
  unfoldable pub uptime : ℕ → ℕ → F
  uptime started_at now =
      let seconds = measures.seconds_between now started_at in
      if measures.less seconds measures.zero_float then measures.zero_float else seconds

  unfoldable pub throughput : ℕ → F → F
  throughput processed seconds =
      if measures.less measures.zero_float seconds
      then measures.divide (measures.of_uint64 processed) seconds
      else measures.zero_float

  unfoldable pub snapshot_at : ℕ → Collector → ℕ → Snapshot F
  unfolding uptime throughput
  snapshot_at started_at c now = record {
    started_at = started_at;
    uptime_seconds = uptime started_at now;
    processed = c.processed;
    applied = c.applied;
    duplicates_skipped = c.duplicates_skipped;
    duplicate_status = c.duplicate_status;
    out_of_order = c.out_of_order;
    invalid_transitions = c.invalid_transitions;
    dead_letters = c.dead_letters;
    failures = c.failures;
    simulated_failures = c.simulated_failures;
    recovered_messages = c.recovered_messages;
    pending_replayed = c.pending_replayed;
    throughput_per_second = throughput c.processed (uptime started_at now);
  }

-- What a query that failed adds to `queueErrors`, and the field of one that did not.
abbrev pub error_of : String → Result String ℕ → List String
error_of name (ok n) = []
error_of name (err e) = str_append (str_append name ": ") e ∷ []

abbrev pub depth_of : Result String ℕ → ℕ
depth_of (ok n) = n
depth_of (err e) = 0

-- `strings.Join(errors, "; ")`
unfoldable pub join : List String → String
join [] = ""
join (x ∷ []) = x
join (x ∷ y ∷ rest) = str_append (str_append x "; ") (join (y ∷ rest))

module _ {F S : Type 0} (measures : Measures F) (encodes : StatsResponse F → Bool) (started_at : ℕ)
    (provider : QueueDepthProvider S) (worker_count : ℤ) where
  unfoldable pub stats_response :
      Collector → ℕ → Result String ℕ → Result String ℕ → Result String ℕ → StatsResponse F
  stats_response c now depth stream_length pending = record {
    snapshot = snapshot_at measures started_at c now;
    queue_depth = depth_of depth;
    stream_length = depth_of stream_length;
    pending_depth = depth_of pending;
    worker_count = worker_count;
    queue_error = join (
        error_of "queue_depth" depth
        ++ (error_of "stream_length" stream_length ++ error_of "pending_depth" pending));
  }

  abbrev pub encoded : StatsResponse F → StatsAnswer F
  encoded response =
      if encodes response then StatsAnswer.answered response else StatsAnswer.encode_failed

  -- The handler, for a request's method.
  unfoldable pub serve_stats : String → Collector → ℕ → S → StatsAnswer F × S
  serve_stats method c now s =
      if str_eq method "GET"
      then (let (depth, s1) = provider.queue_depth s in
          let (stream_length, s2) = provider.stream_length s1 in
          let (pending, s3) = provider.pending_count s2 in
          (encoded (stats_response c now depth stream_length pending), s3))
      else (StatsAnswer.method_not_allowed, s)
