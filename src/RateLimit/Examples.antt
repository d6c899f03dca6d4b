-- ===== src/RateLimit/Examples.antt =====
-- A limiter of two requests in ten seconds, with a clock of four ticks a second.
use totalrecall.Common.{ℕ, ◌≤◌, ◌≡◌, refl, true, false, some, List, [], ◌∷◌, map, arith}
use totalrecall.Common.Outcome.{ok}
use totalrecall.RateLimit.{
  RateLimitPolicy, RateLimitResult, TenantBucket, RateLimitProvider, default_policy, new_bucket,
  check_and_record, check,
}
use totalrecall.RateLimit.Window.{verdict, window_count}
use totalrecall.RateLimit.Runs.{
  NeverBack, run, run_history, allowed_times, run-new_bucket, run-IsLimited,
}
use totalrecall.RateLimit.Retry.{check_and_record-retry}
use totalrecall.RateLimit.Tenants.{bucket_of, check-bucket_of}

abbrev two_in_ten : RateLimitPolicy
two_in_ten = record { max_requests = 2; window_seconds = 10 }

abbrev times : List ℕ
times = 0 ∷ 4 ∷ 8 ∷ 40 ∷ 41 ∷ 42 ∷ []

in_order : NeverBack 0 times
in_order =
    (omega arith, (omega arith, (omega arith, (omega arith, (omega arith, (omega arith, tt))))))

run-times :
    map verdict (run 4 (new_bucket two_in_ten) times)
    ≡ (some true ∷ some true ∷ some false ∷ some false ∷ some true ∷ some false ∷ [])
unfolding run new_bucket check_and_record
run-times = refl

run-new_bucket_example :
    map verdict (run 4 (new_bucket two_in_ten) times) ≡ run_history 4 two_in_ten [] times
run-new_bucket_example = run-new_bucket 4 two_in_ten times (omega arith) in_order

run-IsLimited_example :
    window_count 41 40 (allowed_times times (map verdict (run 4 (new_bucket two_in_ten) times))) ≤ 2
run-IsLimited_example = run-IsLimited 4 two_in_ten times 41 (omega arith) in_order

abbrev full : TenantBucket
full = record { policy = two_in_ten; timestamps = 0 ∷ 4 ∷ [] }

abbrev wait_nine : RateLimitResult
wait_nine = record { allowed = false; remaining = 0; retry_after_seconds = 9 }

full-refuses : (check_and_record 4 8 full).0 ≡ ok wait_nine
unfolding check_and_record
full-refuses = refl

check_and_record-retry_example :
    verdict (check_and_record 4 44 (check_and_record 4 8 full).1).0 ≡ some true
check_and_record-retry_example =
    check_and_record-retry 4 8 full wait_nine (omega arith) (omega arith) (omega arith) full-refuses
      refl

abbrev provider : RateLimitProvider
provider = record {
  default = default_policy;
  policies = ("acme", two_in_ten) ∷ [];
  buckets = ("acme", full) ∷ [];
}

check-bucket_of_example :
    ((check 4 8 provider "acme").0 ≡ (check_and_record 4 8 (bucket_of provider "acme")).0)
    × (bucket_of (check 4 8 provider "acme").1 "globex" ≡ bucket_of provider "globex")
check-bucket_of_example = check-bucket_of 4 8 provider "acme" "globex"
