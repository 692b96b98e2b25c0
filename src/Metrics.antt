-- ===== src/Metrics.antt =====
-- metrics.go: the counters, the gauge and the latency histogram that the client updates. An int64 is
-- its bit pattern, so it wraps at 2 ^ 64; a latency is a number of nanoseconds, which the monotonic
-- clock never makes negative.
pub mod Histogram
pub mod Latencies
pub mod Snapshot
use bacnet_go.Base.{
  ℕ, zero, suc, ◌+◌, ◌-◌, ◌/◌, Bool, ◌&&◌, map, ◌%◌, ◌^◌, List, [], ◌∷◌, ltb, if◌then◌else◌,
}
use bacnet_go.Base.Int.{ℤ, pos, negsuc}

-- `Counter.Add` and `Gauge.Add`, `Inc` and `Dec`.
abbrev pub add : ℕ → ℕ → ℕ
add delta value = (value + delta) % 2 ^ 64

abbrev pub inc : ℕ → ℕ
inc value = add 1 value

abbrev pub dec : ℕ → ℕ
dec value = add 0xFFFFFFFFFFFFFFFF value

pub record LatencyHistogram : Type 0 where
  pub count : ℕ
  pub sum : ℕ
  pub min : ℤ
  pub max : ℕ
  pub buckets : List ℕ

abbrev pub new_latency_histogram : LatencyHistogram
new_latency_histogram = record {
  count = 0;
  sum = 0;
  min = negsuc 0;
  max = 0;
  buckets = 0 ∷ 0 ∷ 0 ∷ 0 ∷ 0 ∷ 0 ∷ 0 ∷ 0 ∷ 0 ∷ 0 ∷ [];
}

-- The bucket of a latency in milliseconds.
unfoldable pub bucket_of : ℕ → ℕ
bucket_of ms =
    if ltb ms 1
    then 0
    else if ltb ms 5
    then 1
    else if ltb ms 10
    then 2
    else if ltb ms 25
    then 3
    else if ltb ms 50
    then 4
    else if ltb ms 100
    then 5
    else if ltb ms 250
    then 6
    else if ltb ms 500
    then 7
    else if ltb ms 1000
    then 8
    else 9

-- `h.buckets[i]++`
unfoldable pub bump : ℕ → List ℕ → List ℕ
bump i [] = []
bump zero (n ∷ ns) = inc n ∷ ns
bump (suc i) (n ∷ ns) = n ∷ bump i ns

abbrev lower : ℤ → ℕ → ℤ
lower (negsuc n) ns = pos ns
lower (pos m) ns = if ltb ns m then pos ns else pos m

-- `(*LatencyHistogram).Record`
unfoldable pub record_latency : ℕ → LatencyHistogram → LatencyHistogram
record_latency ns h = record {
  count = inc h.count;
  sum = add ns h.sum;
  min = lower h.min ns;
  max = if ltb h.max ns then ns else h.max;
  buckets = bump (bucket_of (ns / 1000000)) h.buckets;
}

-- `(*LatencyHistogram).Reset`
abbrev pub reset_latency : LatencyHistogram → LatencyHistogram
reset_latency h = record {
  count = 0;
  sum = 0;
  min = negsuc 0;
  max = 0;
  buckets = map (λ n. 0) h.buckets;
}

pub record LatencyStats : Type 0 where
  pub count : ℕ
  pub min : ℤ
  pub max : ℤ
  pub avg : ℤ
  pub buckets : List ℕ

abbrev opposite : ℕ → ℤ
opposite zero = pos 0
opposite (suc n) = negsuc n

-- `h.sum / h.count` at a positive count: the quotient of two int64, cut towards 0.
abbrev average : ℕ → ℕ → ℤ
average sum count =
    if ltb sum (2 ^ 63) then pos (sum / count) else opposite ((2 ^ 64 - sum) / count)

-- `h.count > 0` for an int64.
abbrev is_positive : ℕ → Bool
is_positive n = ltb 0 n && ltb n (2 ^ 63)

-- `(*LatencyHistogram).Stats`
unfoldable pub stats : LatencyHistogram → LatencyStats
stats h =
    let positive = is_positive h.count in
    record {
      count = h.count;
      min = if positive then h.min else pos 0;
      max = if positive then pos h.max else pos 0;
      avg = if positive then average h.sum h.count else pos 0;
      buckets = h.buckets;
    }

pub record Metrics : Type 0 where
  pub connect_attempts : ℕ
  pub connect_successes : ℕ
  pub connect_failures : ℕ
  pub disconnects : ℕ
  pub requests_sent : ℕ
  pub requests_succeeded : ℕ
  pub requests_failed : ℕ
  pub requests_timed_out : ℕ
  pub responses_received : ℕ
  pub errors_received : ℕ
  pub rejects_received : ℕ
  pub aborts_received : ℕ
  pub who_is_sent : ℕ
  pub i_am_received : ℕ
  pub devices_discovered : ℕ
  pub cov_subscriptions : ℕ
  pub cov_notifications : ℕ
  pub panics_recovered : ℕ
  pub request_latency : LatencyHistogram
  pub bytes_sent : ℕ
  pub bytes_received : ℕ
  pub active_requests : ℕ
  pub active_subscriptions : ℕ
  pub last_activity : ℕ

abbrev pub new_metrics : Metrics
new_metrics = record {
  connect_attempts = 0;
  connect_successes = 0;
  connect_failures = 0;
  disconnects = 0;
  requests_sent = 0;
  requests_succeeded = 0;
  requests_failed = 0;
  requests_timed_out = 0;
  responses_received = 0;
  errors_received = 0;
  rejects_received = 0;
  aborts_received = 0;
  who_is_sent = 0;
  i_am_received = 0;
  devices_discovered = 0;
  cov_subscriptions = 0;
  cov_notifications = 0;
  panics_recovered = 0;
  request_latency = new_latency_histogram;
  bytes_sent = 0;
  bytes_received = 0;
  active_requests = 0;
  active_subscriptions = 0;
  last_activity = 0;
}
