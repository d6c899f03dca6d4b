-- ===== src/RateLimit/Window.antt =====
-- A bucket against the whole history of the requests that it allowed.
use totalrecall.Common.{
  ℕ, ◌+◌, ◌*◌, ◌≤◌, ◌≡◌, refl, ap, ◌∙◌, sym, Bool, true, false, ◌&&◌, not, List, [], ◌∷◌, ◌++◌,
  arith, ltb, leb, length, filter, All, All-append, All-filter, Option, none, some, filter-append,
  Bool-cases, inl, inr, if◌then◌else◌,
}
use totalrecall.Common.Outcome.{Outcome, ok, raise}
use totalrecall.RateLimit.{
  RateLimitPolicy, RateLimitResult, TenantBucket, drop_expired, refuse, decide_request,
  check_and_record,
}

-- A request at `t` lies in the window that ends at `now`.
abbrev pub in_window : ℕ → ℕ → ℕ → Bool
in_window now window t = not (ltb (t + window) now)

-- No entry is later than one behind it.
abbrev pub IsSorted : List ℕ → Type 0
IsSorted [] = Unit
IsSorted (t ∷ ts) = All (λ u. t ≤ u) ts × IsSorted ts

-- While the front of a sorted queue is in the window, so is the rest.
filter-All :
    (now window t : ℕ) (ts : List ℕ)
    → now ≤ t + window
    → All (λ u. t ≤ u) ts
    → filter (in_window now window) ts ≡ ts
filter-All now window t [] h a = refl
filter-All now window t (u ∷ ts) h a =
    let ih = filter-All now window t ts h a.1 in ground (arith, ih)

drop_expired-filter :
    (now window : ℕ) (ts : List ℕ)
    → IsSorted ts
    → drop_expired now window ts ≡ filter (in_window now window) ts
unfolding drop_expired
drop_expired-filter now window [] s = refl
drop_expired-filter now window (t ∷ ts) s =
    let ih = drop_expired-filter now window ts s.1 in
    elim (Bool-cases (ltb (t + window) now)) [
      | inl e ↦ rw e ih
      | inr e ↦ rw e (ap (◌∷◌ t) (sym (filter-All now window t ts (ground arith) s.0)))
    ]

-- A later window keeps nothing that an earlier one dropped.
filter_later :
    (now later window : ℕ) (ts : List ℕ)
    → now ≤ later
    → filter (in_window later window) (filter (in_window now window) ts)
      ≡ filter (in_window later window) ts
filter_later now later window [] h = refl
filter_later now later window (t ∷ ts) h =
    let ih = filter_later now later window ts h in ground (arith, ih)

-- How many requests of a history lie in the window that ends at `at`.
abbrev pub window_count : ℕ → ℕ → List ℕ → ℕ
window_count at window h = length (filter (λ t. leb t at && in_window at window t) h)

abbrev pub IsPast : ℕ → List ℕ → Type 0
IsPast now h = All (λ t. t ≤ now) h

-- The queue is what the history has in the current window.
pub record Tracks (per_second : ℕ) (b : TenantBucket) (h : List ℕ) (now : ℕ) : Type 0 where
  pub queue : b.timestamps ≡ filter (in_window now (b.policy.window_seconds * per_second)) h
  pub sorted : IsSorted h
  pub past : IsPast now h

IsSorted-filter : (p : ℕ → Bool) (ts : List ℕ) → IsSorted ts → IsSorted (filter p ts)
IsSorted-filter p [] s = tt
IsSorted-filter p (t ∷ ts) s = elim (Bool-cases (p t)) [
  | inl e ↦ rw e (All-filter (λ u. t ≤ u) p ts s.0, IsSorted-filter p ts s.1)
  | inr e ↦ rw e (IsSorted-filter p ts s.1)
]

IsSorted-append : (ts : List ℕ) (now : ℕ) → IsSorted ts → IsPast now ts → IsSorted (ts ++ now ∷ [])
IsSorted-append [] now s p = (tt, tt)
IsSorted-append (t ∷ ts) now s p =
    (All-append (λ u. t ≤ u) ts (now ∷ []) s.0 (p.0, tt), IsSorted-append ts now s.1 p.1)

pub IsPast-later : (now later : ℕ) (h : List ℕ) → now ≤ later → IsPast now h → IsPast later h
IsPast-later now later [] le p = tt
IsPast-later now later (t ∷ h) le p = (omega arith, IsPast-later now later h le p.1)

-- What the loop leaves of a tracked queue.
drop_expired-Tracks :
    (per_second now later : ℕ) (b : TenantBucket) (h : List ℕ)
    → Tracks per_second b h now
    → now ≤ later
    → drop_expired later (b.policy.window_seconds * per_second) b.timestamps
      ≡ filter (in_window later (b.policy.window_seconds * per_second)) h
drop_expired-Tracks per_second now later b h t le =
    let window = b.policy.window_seconds * per_second in
    rw (t.queue) (
      drop_expired-filter later window (filter (in_window now window) h)
        (IsSorted-filter (in_window now window) h t.sorted)
      ∙ filter_later now later window h le)

-- The decision and the next history, from the history alone.
abbrev pub admits : ℕ → RateLimitPolicy → ℕ → List ℕ → Bool
admits per_second policy now h =
    ltb (length (filter (in_window now (policy.window_seconds * per_second)) h)) policy.max_requests

abbrev pub next_history : ℕ → RateLimitPolicy → ℕ → List ℕ → List ℕ
next_history per_second policy now h = if admits per_second policy now h then h ++ now ∷ [] else h

abbrev pub verdict : Outcome RateLimitResult → Option Bool
verdict (ok r) = some r.allowed
verdict (raise e) = none

in_window_now : (now window : ℕ) → in_window now window now ≡ true
in_window_now now window = ground arith

refuse-verdict :
    (per_second now window : ℕ) (ts : List ℕ)
    → 1 ≤ length ts
    → verdict (refuse per_second now window ts) ≡ some false
unfolding refuse
refuse-verdict per_second now window [] h = absurd (omega arith)
refuse-verdict per_second now window (t ∷ ts) h = refl

pub decide_request-verdict :
    (per_second now : ℕ) (b : TenantBucket) (kept : List ℕ)
    → 1 ≤ b.policy.max_requests
    → verdict (decide_request per_second now b kept).0
      ≡ some (ltb (length kept) b.policy.max_requests)
unfolding decide_request
decide_request-verdict per_second now b kept positive =
    ground (arith, refuse-verdict per_second now (b.policy.window_seconds * per_second) kept)

decide_request-timestamps :
    (per_second now : ℕ) (b : TenantBucket) (kept : List ℕ)
    → (decide_request per_second now b kept).1 ≡ record b {
      timestamps = if ltb (length kept) b.policy.max_requests then kept ++ now ∷ [] else kept;
    }
unfolding decide_request
decide_request-timestamps per_second now b kept = ground arith

module _ (per_second now later : ℕ) (b : TenantBucket) (h : List ℕ) (t : Tracks per_second b h now)
    (le : now ≤ later) where
  abbrev window : ℕ
  window = b.policy.window_seconds * per_second

  -- The bucket decides as the history does, and goes on tracking it.
  pub check_and_record-verdict :
      1 ≤ b.policy.max_requests
      → verdict (check_and_record per_second later b).0 ≡ some (admits per_second b.policy later h)
  unfolding check_and_record
  check_and_record-verdict positive =
      rw (drop_expired-Tracks per_second now later b h t le)
        (decide_request-verdict per_second later b (filter (in_window later window) h) positive)

  after_check : (check_and_record per_second later b).1 ≡ record b {
    timestamps =
        if admits per_second b.policy later h
        then filter (in_window later window) h ++ later ∷ []
        else filter (in_window later window) h;
  }
  unfolding check_and_record
  after_check =
      rw (drop_expired-Tracks per_second now later b h t le)
        (decide_request-timestamps per_second later b (filter (in_window later window) h))

  pub check_and_record-Tracks :
      Tracks per_second
        (check_and_record per_second later b).1
        (next_history per_second b.policy later h)
        later
  check_and_record-Tracks = rw after_check (elim (Bool-cases (admits per_second b.policy later h)) [
    | inl e ↦ rw e (record {
      queue = rw (filter-append, in_window_now later window);
      sorted = IsSorted-append h later t.sorted (IsPast-later now later h le t.past);
      past =
          All-append (λ u. u ≤ later) h (later ∷ []) (IsPast-later now later h le t.past)
            (omega arith, tt);
    })
    | inr e ↦
        rw e (record { queue = refl; sorted = t.sorted; past = IsPast-later now later h le t.past })
  ])

pub policy-check_and_record :
    (per_second now : ℕ) (b : TenantBucket)
    → (check_and_record per_second now b).1.policy ≡ b.policy
unfolding check_and_record decide_request
policy-check_and_record per_second now b = ground arith
