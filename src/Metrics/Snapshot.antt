-- ===== src/Metrics/Snapshot.antt =====
-- metrics.go: `Reset` and `Snapshot`. The start time and the clock are arguments, in nanoseconds.
use bacnet_go.Base.{ℕ, ◌-◌, ◌==◌, if◌then◌else◌}
use bacnet_go.Metrics.{LatencyStats, Metrics, reset_latency, stats}

-- What `(*Metrics).Reset` stores beside the start time.
unfoldable pub reset : Metrics → Metrics
reset m = record {
  connect_attempts = 0;
  connect_successes = 0;
  connect_failures = 0;
  disconnects = 0;
  requests_sent = 0;
  requests_succeeded = 0;
  requests_failed = 0;
  requests_timed_out = 0;
  responses_received = 0;
  errors_received = 0;
  rejects_received = 0;
  aborts_received = 0;
  who_is_sent = 0;
  i_am_received = 0;
  devices_discovered = 0;
  cov_subscriptions = 0;
  cov_notifications = 0;
  panics_recovered = 0;
  request_latency = reset_latency m.request_latency;
  bytes_sent = 0;
  bytes_received = 0;
  active_requests = 0;
  active_subscriptions = 0;
  last_activity = 0;
}

-- `LastActivity`
abbrev pub last_activity_at : ℕ → Metrics → ℕ
last_activity_at start m = if m.last_activity == 0 then start else m.last_activity

pub record MetricsSnapshot : Type 0 where
  pub uptime : ℕ
  pub connect_attempts : ℕ
  pub connect_successes : ℕ
  pub connect_failures : ℕ
  pub disconnects : ℕ
  pub requests_sent : ℕ
  pub requests_succeeded : ℕ
  pub requests_failed : ℕ
  pub requests_timed_out : ℕ
  pub responses_received : ℕ
  pub errors_received : ℕ
  pub rejects_received : ℕ
  pub aborts_received : ℕ
  pub who_is_sent : ℕ
  pub i_am_received : ℕ
  pub devices_discovered : ℕ
  pub cov_subscriptions : ℕ
  pub cov_notifications : ℕ
  pub latency_stats : LatencyStats
  pub bytes_sent : ℕ
  pub bytes_received : ℕ
  pub active_requests : ℕ
  pub active_subscriptions : ℕ
  pub last_activity : ℕ

-- `Uptime` reads the monotonic clock, which does not run backwards.
unfoldable pub snapshot : ℕ → ℕ → Metrics → MetricsSnapshot
snapshot start now m = record {
  uptime = now - start;
  connect_attempts = m.connect_attempts;
  connect_successes = m.connect_successes;
  connect_failures = m.connect_failures;
  disconnects = m.disconnects;
  requests_sent = m.requests_sent;
  requests_succeeded = m.requests_succeeded;
  requests_failed = m.requests_failed;
  requests_timed_out = m.requests_timed_out;
  responses_received = m.responses_received;
  errors_received = m.errors_received;
  rejects_received = m.rejects_received;
  aborts_received = m.aborts_received;
  who_is_sent = m.who_is_sent;
  i_am_received = m.i_am_received;
  devices_discovered = m.devices_discovered;
  cov_subscriptions = m.cov_subscriptions;
  cov_notifications = m.cov_notifications;
  latency_stats = stats m.request_latency;
  bytes_sent = m.bytes_sent;
  bytes_received = m.bytes_received;
  active_requests = m.active_requests;
  active_subscriptions = m.active_subscriptions;
  last_activity = last_activity_at start m;
}
