-- ===== src/RateLimit/Runs.antt =====
-- A bucket over a whole sequence of requests, whose times never go back.
use totalrecall.Common.{
  ℕ, ◌+◌, ◌*◌, ◌≤◌, ◌≡◌, refl, sym, ap, subst, ◌∙◌, Bool, true, ◌&&◌, Option, some, List, [], ◌∷◌,
  ◌++◌, map, arith, leb, length, filter, All-append, length-append, filter-append, leb→le,
  Bool-cases, inl, inr, if◌then◌else◌,
}
use mathlib.Core.List.{append-nil, append_assoc}
use totalrecall.Common.Outcome.{Outcome}
use totalrecall.RateLimit.{
  RateLimitPolicy, RateLimitResult, TenantBucket, new_bucket, check_and_record,
}
use totalrecall.RateLimit.Window.{
  in_window, window_count, IsPast, IsPast-later, Tracks, admits, next_history, verdict,
  check_and_record-verdict, check_and_record-Tracks, policy-check_and_record,
}

-- The results of `check_and_record` at the given times, in order.
unfoldable pub run : ℕ → TenantBucket → List ℕ → List (Outcome RateLimitResult)
run per_second b [] = []
run per_second b (now ∷ times) =
    let (result, b') = check_and_record per_second now b in result ∷ run per_second b' times

-- The same decisions taken from the history of allowed requests, which is never pruned.
unfoldable pub run_history : ℕ → RateLimitPolicy → List ℕ → List ℕ → List (Option Bool)
run_history per_second policy h [] = []
run_history per_second policy h (now ∷ times) =
    some (admits per_second policy now h)
    ∷ run_history per_second policy (next_history per_second policy now h) times

-- The history that the requests leave.
unfoldable pub history : ℕ → RateLimitPolicy → List ℕ → List ℕ → List ℕ
history per_second policy h [] = h
history per_second policy h (now ∷ times) =
    history per_second policy (next_history per_second policy now h) times

abbrev pub NeverBack : ℕ → List ℕ → Type 0
NeverBack last [] = Unit
NeverBack last (now ∷ times) = (last ≤ now) × NeverBack now times

run-run_history :
    (per_second last : ℕ) (b : TenantBucket) (policy : RateLimitPolicy) (h times : List ℕ)
    → b.policy ≡ policy
    → 1 ≤ policy.max_requests
    → Tracks per_second b h last
    → NeverBack last times
    → map verdict (run per_second b times) ≡ run_history per_second policy h times
unfolding run run_history
run-run_history per_second last b policy h [] same positive t order = refl
run-run_history per_second last b policy h (now ∷ times) same positive t order =
    let b' = (check_and_record per_second now b).1 in
    let t' : Tracks per_second b' (next_history per_second policy now h) now =
      subst (λ p. Tracks per_second b' (next_history per_second p now h) now) same
        (check_and_record-Tracks per_second last now b h t order.0) in
    rw
      (
        check_and_record-verdict per_second last now b h t order.0
            (subst (λ p. 1 ≤ p.max_requests) (sym same) positive),
        run-run_history per_second now b' policy (next_history per_second policy now h) times
            (policy-check_and_record per_second now b ∙ same) positive t' order.1,
      )
      (ap
        (λ p.
          some (admits per_second p now h)
          ∷ run_history per_second policy (next_history per_second policy now h) times)
        same)

-- From an empty bucket with a limit of at least one, whatever the times of the requests, as long as
-- the clock does not go back: no request raises, and each is allowed exactly when fewer than `max_requests` of all the requests
-- allowed so far lie in the window that ends at it.
pub run-new_bucket :
    (per_second : ℕ) (policy : RateLimitPolicy) (times : List ℕ)
    → 1 ≤ policy.max_requests
    → NeverBack 0 times
    → map verdict (run per_second (new_bucket policy) times)
      ≡ run_history per_second policy [] times
unfolding new_bucket
run-new_bucket per_second policy times positive order =
    run-run_history per_second 0 (new_bucket policy) policy [] times refl positive
      (record { queue = refl; sorted = tt; past = tt }) order

-- No window holds more of the history than the policy allows.
abbrev pub IsLimited : ℕ → RateLimitPolicy → List ℕ → Type 0
IsLimited per_second policy h =
    (at : ℕ) → window_count at (policy.window_seconds * per_second) h ≤ policy.max_requests

-- Of requests in the past, one later window counts all that a still later one counts.
window_count-le :
    (at now window : ℕ) (h : List ℕ)
    → now ≤ at
    → IsPast now h
    → window_count at window h ≤ length (filter (in_window now window) h)
window_count-le at now window [] le past = omega arith
window_count-le at now window (t ∷ h) le past =
    let ih = window_count-le at now window h le past.1 in ground (arith, ih)

window_count-append :
    (at window now : ℕ) (h : List ℕ)
    → window_count at window (h ++ now ∷ [])
      ≡ window_count at window h + (if leb now at && in_window at window now then 1 else 0)
window_count-append at window now h = rw (filter-append, length-append) (ground arith)

next_history-IsLimited :
    (per_second now : ℕ) (policy : RateLimitPolicy) (h : List ℕ)
    → IsPast now h
    → IsLimited per_second policy h
    → IsLimited per_second policy (next_history per_second policy now h)
next_history-IsLimited per_second now policy h past limited at =
    elim (Bool-cases (admits per_second policy now h)) [
      | inl e ↦ rw e (
          rw (window_count-append at (policy.window_seconds * per_second) now h)
            (elim (Bool-cases (leb now at)) [
              | inl le ↦ ground (
                arith,
                window_count-le at now (policy.window_seconds * per_second) h (leb→le now at le)
                    past,
              )
              | inr gt ↦ ground (arith, limited at)
            ]))
      | inr e ↦ rw e (limited at)
    ]

next_history-IsPast :
    (per_second last now : ℕ) (policy : RateLimitPolicy) (h : List ℕ)
    → last ≤ now
    → IsPast last h
    → IsPast now (next_history per_second policy now h)
next_history-IsPast per_second last now policy h le past =
    elim (Bool-cases (admits per_second policy now h)) [
      | inl e ↦ rw e (
          All-append (λ u. u ≤ now) h (now ∷ []) (IsPast-later last now h le past)
            (omega arith, tt))
      | inr e ↦ rw e (IsPast-later last now h le past)
    ]

history-IsLimited :
    (per_second last : ℕ) (policy : RateLimitPolicy) (h times : List ℕ)
    → IsPast last h
    → NeverBack last times
    → IsLimited per_second policy h
    → IsLimited per_second policy (history per_second policy h times)
unfolding history
history-IsLimited per_second last policy h [] past order limited = limited
history-IsLimited per_second last policy h (now ∷ times) past order limited =
    history-IsLimited per_second now policy (next_history per_second policy now h) times
      (next_history-IsPast per_second last now policy h order.0 past) order.1
      (next_history-IsLimited per_second now policy h (IsPast-later last now h order.0 past)
        limited)

-- The times whose request was allowed.
unfoldable pub allowed_times : List ℕ → List (Option Bool) → List ℕ
allowed_times (now ∷ times) (some true ∷ verdicts) = now ∷ allowed_times times verdicts
allowed_times (now ∷ times) (_ ∷ verdicts) = allowed_times times verdicts
allowed_times _ _ = []

history-allowed_times :
    (per_second : ℕ) (policy : RateLimitPolicy) (h times : List ℕ)
    → h ++ allowed_times times (run_history per_second policy h times)
      ≡ history per_second policy h times
unfolding history run_history allowed_times
history-allowed_times per_second policy h [] = append-nil h
history-allowed_times per_second policy h (now ∷ times) =
    elim (Bool-cases (admits per_second policy now h)) [
      | inl e ↦
          rw (e, allowed_times)
            (sym (
                append_assoc h (now ∷ [])
                  (allowed_times times (run_history per_second policy (h ++ now ∷ []) times)))
              ∙ history-allowed_times per_second policy (h ++ now ∷ []) times)
      | inr e ↦ rw (e, allowed_times) (history-allowed_times per_second policy h times)
    ]

-- From an empty bucket with a limit of at least one, whatever the times of the requests, as long as
-- the clock does not go back: at every instant, the window that ends there holds at most `max_requests` of the allowed requests.
pub run-IsLimited :
    (per_second : ℕ) (policy : RateLimitPolicy) (times : List ℕ) (at : ℕ)
    → 1 ≤ policy.max_requests
    → NeverBack 0 times
    → window_count at
        (policy.window_seconds * per_second)
        (allowed_times times (map verdict (run per_second (new_bucket policy) times)))
      ≤ policy.max_requests
run-IsLimited per_second policy times at positive order =
    rw
      (
        run-new_bucket per_second policy times positive order,
        history-allowed_times per_second policy [] times,
      )
      (history-IsLimited per_second 0 policy [] times tt order (λ at'. omega arith) at)
