-- ===== src/Monitoring/Answers.antt =====
-- What NewStatsHandler of metrics.go answers.
use Prim.Native.String.{◌++◌ as str_append, count}
use text.Mathlib.TextLemmas.{length-append}
use senior_backend_order_ing.Prelude.{
  ℕ, ◌<◌, ◌≡◌, ◌≢◌, ◌↔◌, refl, ap, String, Bool, true, false, List, [], ◌∷◌, ◌++◌, Result, ok, err,
  arith,
}
use senior_backend_order_ing.Prelude.Int.{ℤ}
use senior_backend_order_ing.Monitoring.Collector.{Collector}
use senior_backend_order_ing.Monitoring.Stats.{
  Measures, Snapshot, StatsResponse, QueueDepthProvider, StatsAnswer, uptime, throughput,
  snapshot_at, error_of, depth_of, join, stats_response, serve_stats,
}

abbrev pub Succeeded : Result String ℕ → Type 0
Succeeded r = (n : ℕ) × (r ≡ ok n)

-- The depth of a query is its answer, and zero if it failed.
abbrev pub IsDepthOf : Result String ℕ → ℕ → Type 0
IsDepthOf (ok n) d = d ≡ n
IsDepthOf (err e) d = d ≡ 0

depth_of-IsDepthOf : (r : Result String ℕ) → IsDepthOf r (depth_of r)
depth_of-IsDepthOf (ok n) = refl
depth_of-IsDepthOf (err e) = refl

-- The counters of a snapshot are the collector's; the uptime is the time since the start, or zero if
-- that is negative, and the throughput what was processed divided by it, or zero if it is not positive.
pub record IsSnapshotOf {F : Type 0} (measures : Measures F) (started_at : ℕ) (c : Collector)
    (now : ℕ) (s : Snapshot F) : Type 0 where
  pub same_start : s.started_at ≡ started_at
  pub same_processed : s.processed ≡ c.processed
  pub same_applied : s.applied ≡ c.applied
  pub same_duplicates_skipped : s.duplicates_skipped ≡ c.duplicates_skipped
  pub same_duplicate_status : s.duplicate_status ≡ c.duplicate_status
  pub same_out_of_order : s.out_of_order ≡ c.out_of_order
  pub same_invalid_transitions : s.invalid_transitions ≡ c.invalid_transitions
  pub same_dead_letters : s.dead_letters ≡ c.dead_letters
  pub same_failures : s.failures ≡ c.failures
  pub same_simulated_failures : s.simulated_failures ≡ c.simulated_failures
  pub same_recovered_messages : s.recovered_messages ≡ c.recovered_messages
  pub same_pending_replayed : s.pending_replayed ≡ c.pending_replayed
  pub up :
      measures.less (measures.seconds_between now started_at) measures.zero_float ≡ false
      → s.uptime_seconds ≡ measures.seconds_between now started_at
  pub not_up :
      measures.less (measures.seconds_between now started_at) measures.zero_float ≡ true
      → s.uptime_seconds ≡ measures.zero_float
  pub some_time :
      measures.less measures.zero_float s.uptime_seconds ≡ true
      → s.throughput_per_second ≡ measures.divide (measures.of_uint64 c.processed) s.uptime_seconds
  pub no_time :
      measures.less measures.zero_float s.uptime_seconds ≡ false
      → s.throughput_per_second ≡ measures.zero_float

-- What a response says of the collector, the workers and the three queries.
pub record IsResponseOf {F : Type 0} (measures : Measures F) (started_at : ℕ) (workers : ℤ)
    (c : Collector) (now : ℕ) (depth stream_length pending : Result String ℕ) (r : StatsResponse F)
    : Type 0 where
  pub counters : IsSnapshotOf measures started_at c now r.snapshot
  pub queue_depth_of : IsDepthOf depth r.queue_depth
  pub stream_length_of : IsDepthOf stream_length r.stream_length
  pub pending_depth_of : IsDepthOf pending r.pending_depth
  pub same_workers : r.worker_count ≡ workers
  pub error_text :
      (r.queue_error ≡ "") ↔ (Succeeded depth × Succeeded stream_length × Succeeded pending)

snapshot_at-IsSnapshotOf :
    {F : Type 0} (measures : Measures F) (started_at : ℕ) (c : Collector) (now : ℕ)
    → IsSnapshotOf measures started_at c now (snapshot_at measures started_at c now)
unfolding snapshot_at uptime throughput
snapshot_at-IsSnapshotOf measures started_at c now = record {
  same_start = refl;
  same_processed = refl;
  same_applied = refl;
  same_duplicates_skipped = refl;
  same_duplicate_status = refl;
  same_out_of_order = refl;
  same_invalid_transitions = refl;
  same_dead_letters = refl;
  same_failures = refl;
  same_simulated_failures = refl;
  same_recovered_messages = refl;
  same_pending_replayed = refl;
  up = λ h. rw h refl;
  not_up = λ h. rw h refl;
  some_time = λ h. rw h refl;
  no_time = λ h. rw h refl;
}

join_not_empty : (x : String) (rest : List String) → 0 < count x → 0 < count (join (x ∷ rest))
unfolding join
join_not_empty x [] h = h
join_not_empty x (y ∷ rest) h =
    omega (arith, length-append (str_append x "; ") (join (y ∷ rest)), length-append x "; ")

error_not_empty :
    (name e : String) (rest : List String) → join (str_append (str_append name ": ") e ∷ rest) ≢ ""
error_not_empty name e rest h =
    let long =
      join_not_empty (str_append (str_append name ": ") e) rest
        (omega (arith, length-append (str_append name ": ") e, length-append name ": ")) in
    let none_left = ap count h in omega arith

-- The text of the errors of three queries is empty exactly when all succeeded.
join-iff-Succeeded :
    (depth stream_length pending : Result String ℕ)
    → (join (
          error_of "queue_depth" depth
          ++ (error_of "stream_length" stream_length ++ error_of "pending_depth" pending))
        ≡ "")
      ↔ (Succeeded depth × Succeeded stream_length × Succeeded pending)
unfolding join
join-iff-Succeeded (ok a) (ok b) (ok c) = (λ h. ((a, refl), (b, refl), (c, refl)), λ h. refl)
join-iff-Succeeded (err e) b c = (
  λ h. absurd (
      error_not_empty "queue_depth" e (error_of "stream_length" b ++ error_of "pending_depth" c) h),
  λ h. absurd (cc h.0.1),
)
join-iff-Succeeded (ok a) (err e) c = (
  λ h. absurd (error_not_empty "stream_length" e (error_of "pending_depth" c) h),
  λ h. absurd (cc h.1.1),
)
join-iff-Succeeded (ok a) (ok b) (err e) =
    (λ h. absurd (error_not_empty "pending_depth" e [] h), λ h. absurd (cc h.2.1))

module _ {F S : Type 0} (measures : Measures F) (encodes : StatsResponse F → Bool) (started_at : ℕ)
    (provider : QueueDepthProvider S) (worker_count : ℤ) where
  -- A GET request whose response can be encoded is answered with it: the counters are those of the
  -- collector; the uptime is the time since the start, or zero if that is negative, and the throughput
  -- is the number of processed events divided by it, or zero if it is not positive; the number of
  -- workers is the configured one; the queue depth, the stream length and the pending depth are the
  -- answers of the three queries of these names, made one after the other, and zero for one that
  -- failed; and the error text is empty exactly when all three queries succeeded.
  pub serve_stats-queue_error :
      (c : Collector) (now : ℕ) (s : S)
      → let (depth, s1) = provider.queue_depth s in
        let (stream_length, s2) = provider.stream_length s1 in
        let (pending, s3) = provider.pending_count s2 in
        let response =
          stats_response measures encodes started_at provider worker_count c now depth stream_length
            pending in
        encodes response ≡ true
        → (serve_stats measures encodes started_at provider worker_count "GET" c now s
            ≡ (StatsAnswer.answered response, s3))
          × IsResponseOf measures started_at worker_count c now depth stream_length pending response
  unfolding serve_stats stats_response
  serve_stats-queue_error c now s can = (
    rw can refl,
    record {
      counters = snapshot_at-IsSnapshotOf measures started_at c now;
      queue_depth_of = depth_of-IsDepthOf _;
      stream_length_of = depth_of-IsDepthOf _;
      pending_depth_of = depth_of-IsDepthOf _;
      same_workers = refl;
      error_text = join-iff-Succeeded _ _ _;
    },
  )
