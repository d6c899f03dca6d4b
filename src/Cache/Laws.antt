-- ===== src/Cache/Laws.antt =====
-- What a client of the cache can read back, whatever is stored.
use totalrecall.Common.{
  ℕ, ◌+◌, ◌≡◌, refl, ◌∙◌, Bool, true, false, Option, none, some, List, [], ◌∷◌, arith, ltb, filter,
  Bool-cases, inl, inr, if◌then◌else◌,
}
use totalrecall.Common.Text.{
  String, contains, ◌++◌, ◌==◌, eq_iff, starts_with, starts_with-append, append_assoc,
}
use totalrecall.Common.Dict
use totalrecall.Common.Dict.{Dict, get-put, get-remove}
use totalrecall.Common.Json.{Json}
use totalrecall.Cache.{
  Entry, TtlCache, delete_keys, get, set, invalidate_prefix, build_search_cache_key,
  search_invalidation_prefix,
}

pub contains-filter :
    (p : String → Bool) (ks : List String) (j : String)
    → contains j (filter p ks) ≡ (if p j then contains j ks else false)
unfolding contains
contains-filter p [] j = ground arith
contains-filter p (k ∷ ks) j = ground (arith, eq_iff j k, contains-filter p ks j)

module _ {ℓ} {V : Type ℓ} where
  -- A stored entry is read while it has not expired.
  abbrev pub live : ℕ → Option (Entry V) → Option V
  live now none = none
  live now (some e) = if ltb e.expires_at now then none else some e.value

  -- What `get` returns.
  abbrev pub view : ℕ → TtlCache V → String → Option V
  view now cache key = (get now cache key).0

  view-live : (now : ℕ) (c : TtlCache V) (k : String) → view now c k ≡ live now (Dict.get c.store k)
  unfolding get
  view-live now c k = ground arith

  -- A read at a time, after a value was set at another: the value under its own key until the time
  -- to live is over, and what was there before under any other key.
  pub view-set :
      (now later : ℕ) (c : TtlCache V) (k j : String) (v : V)
      → view later (set now c k v) j
        ≡ (if k == j then (if ltb (now + c.ttl) later then none else some v) else view later c j)
  view-set now later c k j v =
      view-live later (set now c k v) j
      ∙ unfold set in
        rw (get-put, view-live later c j)
          (elim (Bool-cases (k == j)) [ inl e ↦ rw e | inr e ↦ rw e ])

  get-delete_keys :
      (ks : List String) (store : Dict (Entry V)) (j : String)
      → Dict.get (delete_keys ks store) j ≡ (if contains j ks then none else Dict.get store j)
  unfolding delete_keys contains
  get-delete_keys [] store j = refl
  get-delete_keys (k ∷ ks) store j = ground (
    arith,
    get-delete_keys ks (Dict.remove store k) j,
    get-remove store k j,
    eq_iff k j,
    eq_iff j k,
  )

  -- A key that the dictionary does not list has no entry.
  get-keys :
      (store : Dict (Entry V)) (j : String)
      → contains j (Dict.keys store) ≡ false
      → Dict.get store j ≡ none
  unfolding contains Dict.get
  get-keys [] j h = refl
  get-keys ((k, e) ∷ store) j h = ground (arith, get-keys store j, eq_iff k j, eq_iff j k)

  pub get-invalidate_prefix :
      (c : TtlCache V) (prefix j : String)
      → Dict.get (invalidate_prefix c prefix).1.store j
        ≡ (if starts_with j prefix then none else Dict.get c.store j)
  unfolding invalidate_prefix
  get-invalidate_prefix c prefix j =
      rw (get-delete_keys, contains-filter)
        (elim (Bool-cases (starts_with j prefix)) [
          | inr e ↦ rw e
          | inl e ↦ rw e (elim (Bool-cases (contains j (Dict.keys c.store))) [
            | inl f ↦ rw f
            | inr f ↦ rw (f, get-keys c.store j f)
          ])
        ])

  -- After an invalidation no key with the prefix reads anything, and every other key reads as before.
  pub view-invalidate_prefix :
      (now : ℕ) (c : TtlCache V) (prefix j : String)
      → view now (invalidate_prefix c prefix).1 j
        ≡ (if starts_with j prefix then none else view now c j)
  view-invalidate_prefix now c prefix j =
      view-live now (invalidate_prefix c prefix).1 j
      ∙ rw (get-invalidate_prefix, view-live now c j)
          (elim (Bool-cases (starts_with j prefix)) [ inl e ↦ rw e | inr e ↦ rw e ])

-- The key of every search for a tenant's application starts with the prefix that a deletion for it
-- invalidates, whatever the query.
pub search_key-prefix :
    (digest : String → Dict Json → ℕ → String) (tenant_id application_id query : String)
    (filters : Dict Json) (limit : ℕ)
    → starts_with
        (build_search_cache_key digest tenant_id application_id query filters limit)
        (search_invalidation_prefix tenant_id application_id)
      ≡ true
unfolding build_search_cache_key search_invalidation_prefix
search_key-prefix digest tenant_id application_id query filters limit = simp (← append_assoc) (
    starts_with-append (((("msearch:" ++ tenant_id) ++ ":") ++ application_id) ++ ":")
      (digest query filters limit))

-- The key does not tell tenants apart when an identifier holds a colon: the search of tenant `t` in
-- application `x:y` has the key of the same search of tenant `t:x` in application `y`.
pub search_key-collision :
    (digest : String → Dict Json → ℕ → String) (t x y query : String) (filters : Dict Json)
    (limit : ℕ)
    → build_search_cache_key digest t (x ++ (":" ++ y)) query filters limit
      ≡ build_search_cache_key digest (t ++ (":" ++ x)) y query filters limit
unfolding build_search_cache_key
search_key-collision digest t x y query filters limit = simp append_assoc
