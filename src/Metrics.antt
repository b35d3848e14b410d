-- ===== src/Metrics.antt =====
-- observability.rs: the counters, which wrap at 64 bits (`fetch_add`).
use replex.Prelude.{ℕ, ◌+◌, ◌%◌, ◌^◌}

pub record Metrics : Type 0 where
  pub policy_rejects : ℕ
  pub cache_hits : ℕ
  pub cache_misses : ℕ
  pub redirects : ℕ
  pub upstream_failures : ℕ
  pub upstream_requests : ℕ
  pub upstream_latency_ms : ℕ
  pub task_failures : ℕ

abbrev pub fetch_add : ℕ → ℕ → ℕ
fetch_add n k = (n + k) % 2 ^ 64

abbrev pub policy_reject : Metrics → Metrics
policy_reject m = record m { policy_rejects = fetch_add m.policy_rejects 1 }

abbrev pub cache_hit : Metrics → Metrics
cache_hit m = record m { cache_hits = fetch_add m.cache_hits 1 }

abbrev pub cache_miss : Metrics → Metrics
cache_miss m = record m { cache_misses = fetch_add m.cache_misses 1 }

abbrev pub redirect : Metrics → Metrics
redirect m = record m { redirects = fetch_add m.redirects 1 }

abbrev pub upstream_failure : Metrics → Metrics
upstream_failure m = record m { upstream_failures = fetch_add m.upstream_failures 1 }

abbrev pub task_failure : Metrics → Metrics
task_failure m = record m { task_failures = fetch_add m.task_failures 1 }

abbrev pub started : Metrics
started = record {
  policy_rejects = 0;
  cache_hits = 0;
  cache_misses = 0;
  redirects = 0;
  upstream_failures = 0;
  upstream_requests = 0;
  upstream_latency_ms = 0;
  task_failures = 0;
}
