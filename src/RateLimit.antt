-- ===== src/RateLimit.antt =====
-- totalrecall/ratelimit/provider.py: a sliding-window limiter with one bucket for each tenant.
-- `time.monotonic()` is a reading in ticks, of which a second has `per_second`; a reading is an
-- argument of the call that takes it. Comparisons with `now - window` add the window on the other
-- side, because a subtraction on the natural numbers stops at 0.
pub mod Window
pub mod Runs
pub mod Retry
pub mod Tenants
mod Examples
use totalrecall.Common.{
  ℕ, ◌+◌, ◌-◌, ◌*◌, ◌/◌, max, Bool, true, false, not, Option, none, some, List, [], ◌∷◌, ◌++◌, ltb,
  leb, length, filter, map, if◌then◌else◌,
}
use totalrecall.Common.Text.{String, ◌==◌}
use totalrecall.Common.Dict
use totalrecall.Common.Dict.{Dict}
use totalrecall.Common.Outcome.{Outcome, ok, raise, index_error}

pub record RateLimitPolicy : Type 0 where
  pub max_requests : ℕ
  pub window_seconds : ℕ

pub record RateLimitResult : Type 0 where
  pub allowed : Bool
  pub remaining : ℕ
  pub retry_after_seconds : ℕ

abbrev pub default_policy : RateLimitPolicy
default_policy = record { max_requests = 60; window_seconds = 60 }

pub record TenantBucket : Type 0 where
  pub policy : RateLimitPolicy
  pub timestamps : List ℕ

unfoldable pub new_bucket : RateLimitPolicy → TenantBucket
new_bucket policy = record { policy = policy; timestamps = [] }

-- The `while` loop: timestamps are dropped from the front while they lie before the window.
unfoldable pub drop_expired : ℕ → ℕ → List ℕ → List ℕ
drop_expired now window [] = []
drop_expired now window (t ∷ ts) =
    let rest = drop_expired now window ts in if ltb (t + window) now then rest else t ∷ ts

-- The refusal: `self._timestamps[0]` raises on an empty queue.
unfoldable pub refuse : ℕ → ℕ → ℕ → List ℕ → Outcome RateLimitResult
refuse per_second now window [] = raise index_error
refuse per_second now window (oldest ∷ ts) = ok (record {
  allowed = false;
  remaining = 0;
  retry_after_seconds = max 1 ((oldest + window - now) / per_second + 1);
})

-- The decision, once the loop has left `kept` in the queue.
unfoldable pub decide_request :
    ℕ → ℕ → TenantBucket → List ℕ → Outcome RateLimitResult × TenantBucket
unfolding refuse
decide_request per_second now bucket kept =
    let count = length kept in
    if leb bucket.policy.max_requests count
    then (
      refuse per_second now (bucket.policy.window_seconds * per_second) kept,
      record bucket { timestamps = kept },
    )
    else (
      ok (record {
        allowed = true;
        remaining = bucket.policy.max_requests - count - 1;
        retry_after_seconds = 0;
      }),
      record bucket { timestamps = kept ++ now ∷ [] },
    )

unfoldable pub check_and_record : ℕ → ℕ → TenantBucket → Outcome RateLimitResult × TenantBucket
unfolding drop_expired decide_request
check_and_record per_second now bucket =
    decide_request per_second now bucket
      (drop_expired now (bucket.policy.window_seconds * per_second) bucket.timestamps)

pub record RateLimitProvider : Type 0 where
  pub default : RateLimitPolicy
  pub policies : Dict RateLimitPolicy
  pub buckets : Dict TenantBucket

unfoldable pub new_provider : RateLimitPolicy → Dict RateLimitPolicy → RateLimitProvider
new_provider default per_tenant = record { default = default; policies = per_tenant; buckets = [] }

unfoldable pub get_or_create_bucket : RateLimitProvider → String → TenantBucket × RateLimitProvider
get_or_create_bucket p tenant_id = elim (Dict.get p.buckets tenant_id) [
  | some bucket ↦ (bucket, p)
  | none ↦
      let bucket = new_bucket (Dict.get_or p.policies tenant_id p.default) in
      (bucket, record p { buckets = Dict.put p.buckets tenant_id bucket })
]

-- The bucket is an object that the dictionary holds: its new state is stored back.
unfoldable pub check :
    ℕ → ℕ → RateLimitProvider → String → Outcome RateLimitResult × RateLimitProvider
unfolding get_or_create_bucket
check per_second now p tenant_id =
    let (bucket, p') = get_or_create_bucket p tenant_id in
    let (result, bucket') = check_and_record per_second now bucket in
    (result, record p' { buckets = Dict.put p'.buckets tenant_id bucket' })
