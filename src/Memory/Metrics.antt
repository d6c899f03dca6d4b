-- ===== src/Memory/Metrics.antt =====
-- `_MemoryOperationMetrics` of totalrecall/memory/wrapper/service.py: counters for each operation.
-- Latencies are exact counts of ticks; the clock's text is an argument. The lock makes each call one
-- step.
use totalrecall.Common.{ℕ, ◌+◌, ◌≡◌, Bool, Option, none, some, [], arith, if◌then◌else◌}
use totalrecall.Common.Text.{String, ◌==◌, eq_iff}
use totalrecall.Common.Dict
use totalrecall.Common.Dict.{Dict, get-put}

pub record OperationMetrics : Type 0 where
  pub totals : Dict ℕ
  pub successes : Dict ℕ
  pub failures : Dict ℕ
  pub latency_totals : Dict ℕ
  pub search_cache_hit_total : ℕ
  pub last_success_at : Option String
  pub last_failure_at : Option String
  pub last_error_type : Option String

abbrev pub no_operations : OperationMetrics
no_operations = record {
  totals = [];
  successes = [];
  failures = [];
  latency_totals = [];
  search_cache_hit_total = 0;
  last_success_at = none;
  last_failure_at = none;
  last_error_type = none;
}

-- `d[k] = d.get(k, 0) + n`
abbrev pub bump : Dict ℕ → String → ℕ → Dict ℕ
bump d k n = Dict.put d k (Dict.get_or d k 0 + n)

unfoldable pub record_success : OperationMetrics → String → ℕ → Bool → String → OperationMetrics
record_success m operation latency cache_hit now = record m {
  totals = bump m.totals operation 1;
  successes = bump m.successes operation 1;
  latency_totals = bump m.latency_totals operation latency;
  search_cache_hit_total = m.search_cache_hit_total + (if cache_hit then 1 else 0);
  last_success_at = some now;
}

unfoldable pub record_failure : OperationMetrics → String → ℕ → String → String → OperationMetrics
record_failure m operation latency error_type now = record m {
  totals = bump m.totals operation 1;
  failures = bump m.failures operation 1;
  latency_totals = bump m.latency_totals operation latency;
  last_failure_at = some now;
  last_error_type = some error_type;
}

-- What a snapshot reports for an operation.
abbrev pub total : OperationMetrics → String → ℕ
total m operation = Dict.get_or m.totals operation 0

abbrev pub success_total : OperationMetrics → String → ℕ
success_total m operation = Dict.get_or m.successes operation 0

abbrev pub failure_total : OperationMetrics → String → ℕ
failure_total m operation = Dict.get_or m.failures operation 0

pub get_or-bump :
    (d : Dict ℕ) (k j : String) (n : ℕ)
    → Dict.get_or (bump d k n) j 0 ≡ Dict.get_or d j 0 + (if k == j then n else 0)
unfolding Dict.get_or
get_or-bump d k j n = rw (get-put, Dict.get_or) (ground (arith, eq_iff k j))
