-- ===== src/RateLimit/Retry.antt =====
-- The advice of a refusal: `retry_after_seconds`.
use totalrecall.Common.{
  ℕ, ◌+◌, ◌-◌, ◌*◌, ◌/◌, ◌≤◌, ◌<◌, max, ◌≡◌, refl, ap, ◌∙◌, some, lt→ltb, true, false, List, [],
  ◌∷◌, arith, length, length-append,
}
use totalrecall.Common.Outcome.{ok}
use totalrecall.RateLimit.{
  RateLimitResult, TenantBucket, drop_expired, refuse, decide_request, check_and_record,
}
use totalrecall.RateLimit.Window.{verdict, decide_request-verdict}
use native.Mathlib.Nat.{mod-lt, div-add-mod}

-- Rounding down and adding one passes the exact quotient.
seconds_cover : (x p : ℕ) → 0 < p → x < max 1 (x / p + 1) * p
seconds_cover x p h = grind (arith, mod-lt, div-add-mod)

-- Past the window of its front, a queue loses at least that entry.
length-drop_expired-le :
    (now window : ℕ) (ts : List ℕ) → length (drop_expired now window ts) ≤ length ts
unfolding drop_expired
length-drop_expired-le now window [] = omega arith
length-drop_expired-le now window (t ∷ ts) = ground (arith, length-drop_expired-le now window ts)

length-drop_expired-lt :
    (now window oldest : ℕ) (ts : List ℕ)
    → oldest + window < now
    → length (drop_expired now window (oldest ∷ ts)) ≤ length ts
unfolding drop_expired
length-drop_expired-lt now window oldest ts h = ground (arith, length-drop_expired-le now window ts)

-- A bucket at its limit, not above it.
decide_request-refused :
    (per_second now : ℕ) (b : TenantBucket) (kept : List ℕ) (r : RateLimitResult)
    → (decide_request per_second now b kept).0 ≡ ok r
    → r.allowed ≡ false
    → (oldest : ℕ) × (rest : List ℕ) × (kept ≡ oldest ∷ rest)
      × ((decide_request per_second now b kept).1 ≡ record b { timestamps = kept })
      × (r.retry_after_seconds
          ≡ max 1 ((oldest + b.policy.window_seconds * per_second - now) / per_second + 1))
unfolding decide_request refuse
decide_request-refused per_second now b [] r e refused = ground arith
decide_request-refused per_second now b (oldest ∷ rest) r e refused =
    (oldest, rest, refl, ground arith, ground arith)

module _ (per_second : ℕ) (b : TenantBucket) where
  abbrev window : ℕ
  window = b.policy.window_seconds * per_second

  -- At a time past the window of the oldest entry that it keeps, a queue within the limit admits.
  admits_later :
      (later oldest : ℕ) (rest : List ℕ)
      → 1 ≤ b.policy.max_requests
      → length (oldest ∷ rest) ≤ b.policy.max_requests
      → oldest + window < later
      → verdict (check_and_record per_second later (record b { timestamps = oldest ∷ rest })).0
        ≡ some true
  unfolding check_and_record
  admits_later later oldest rest positive fits past =
      decide_request-verdict per_second later (record b { timestamps = oldest ∷ rest })
        (drop_expired later window (oldest ∷ rest)) positive
      ∙ ap some (lt→ltb _ _ (omega (arith, length-drop_expired-lt later window oldest rest past)))

-- A tenant that a refusal tells to wait, and that comes back after exactly that many seconds with no
-- request in between, is allowed, if its queue was within the limit, the
-- limit is at least one and a second has at least one tick. (One that is not above it stays
-- so: `check_and_record-fits`.)
pub check_and_record-retry :
    (per_second now : ℕ) (b : TenantBucket) (r : RateLimitResult)
    → 0 < per_second
    → 1 ≤ b.policy.max_requests
    → length b.timestamps ≤ b.policy.max_requests
    → (check_and_record per_second now b).0 ≡ ok r
    → r.allowed ≡ false
    → verdict
        (check_and_record per_second
          (now + r.retry_after_seconds * per_second)
          (check_and_record per_second now b).1).0
      ≡ some true
check_and_record-retry per_second now b r rate positive fits e refused =
    let kept = drop_expired now (b.policy.window_seconds * per_second) b.timestamps in
    let (oldest, rest, split, state, wait) =
      decide_request-refused per_second now b kept r (unfold check_and_record in e) refused in
    let after : (check_and_record per_second now b).1 ≡ record b { timestamps = oldest ∷ rest } =
      unfold check_and_record in (state ∙ ap (λ k. record b { timestamps = k }) split) in
    let room : length (oldest ∷ rest) ≤ b.policy.max_requests = omega (
      arith,
      length-drop_expired-le now (b.policy.window_seconds * per_second) b.timestamps,
      ap length split,
    ) in
    rw after (
      admits_later per_second b (now + r.retry_after_seconds * per_second) oldest rest positive room
        (rw wait (
          omega (
            arith,
            seconds_cover (oldest + b.policy.window_seconds * per_second - now) per_second rate,
          ))))

-- A queue within the limit stays within it.
pub check_and_record-fits :
    (per_second now : ℕ) (b : TenantBucket)
    → length b.timestamps ≤ b.policy.max_requests
    → length (check_and_record per_second now b).1.timestamps ≤ b.policy.max_requests
unfolding check_and_record decide_request
check_and_record-fits per_second now b fits =
    let window = b.policy.window_seconds * per_second in
    ground (
      arith,
      length-drop_expired-le now window b.timestamps,
      length-append (drop_expired now window b.timestamps) (now ∷ []),
    )
