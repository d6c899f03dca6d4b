-- ===== src/Cache.antt =====
-- totalrecall/cache/provider.py: an in-process cache whose entries expire, and the keys of cached
-- memory searches. `time.monotonic()` is a reading in ticks, an argument of the call that takes it;
-- `ttl` counts the same ticks. The lock makes each call one step.
pub mod Laws
mod Examples
use totalrecall.Common.{
  ℕ, ◌+◌, Bool, true, false, Option, none, some, List, [], ◌∷◌, ltb, length, filter, map,
  if◌then◌else◌,
}
use totalrecall.Common.Text.{String, ◌++◌, ◌==◌, starts_with}
use totalrecall.Common.Dict
use totalrecall.Common.Dict.{Dict}
use totalrecall.Common.Json.{Json}

pub record Entry {ℓ} (V : Type ℓ) : Type ℓ where
  pub value : V
  pub expires_at : ℕ

pub record TtlCache {ℓ} (V : Type ℓ) : Type ℓ where
  pub ttl : ℕ
  pub store : Dict (Entry V)

-- `for k in ks: del self._store[k]`
unfoldable pub delete_keys {ℓ} : {V : Type ℓ} → List String → Dict (Entry V) → Dict (Entry V)
delete_keys [] store = store
delete_keys (k ∷ ks) store = delete_keys ks (Dict.remove store k)

module _ {ℓ} {V : Type ℓ} where
  -- The value, and the cache after an expired entry was dropped.
  unfoldable pub get : ℕ → TtlCache V → String → Option V × TtlCache V
  get now cache key = elim (Dict.get cache.store key) [
    | none ↦ (none, cache)
    | some entry ↦
        if ltb entry.expires_at now
        then (none, record cache { store = Dict.remove cache.store key })
        else (some entry.value, cache)
  ]

  unfoldable pub set : ℕ → TtlCache V → String → V → TtlCache V
  set now cache key value = record cache {
    store = Dict.put cache.store key (record { value = value; expires_at = now + cache.ttl });
  }

  unfoldable pub invalidate_prefix : TtlCache V → String → ℕ × TtlCache V
  invalidate_prefix cache prefix =
      let to_remove = filter (λ k. starts_with k prefix) (Dict.keys cache.store) in
      (length to_remove, record cache { store = delete_keys to_remove cache.store })

  unfoldable pub clear : TtlCache V → TtlCache V
  clear cache = record cache { store = [] }

  -- The `size` property drops the expired entries before it counts.
  unfoldable pub size : ℕ → TtlCache V → ℕ × TtlCache V
  size now cache =
      let expired = map (λ e. e.0) (filter (λ e. ltb e.1.expires_at now) cache.store) in
      let store = delete_keys expired cache.store in (length store, record cache { store = store })

-- The digest of the query, the filters and the limit (a SHA-256 of their JSON, cut to 16 digits)
-- is a parameter.
unfoldable pub build_search_cache_key :
    (String → Dict Json → ℕ → String) → String → String → String → Dict Json → ℕ → String
build_search_cache_key digest tenant_id application_id query filters limit =
    "msearch:" ++ (tenant_id ++ (":" ++ (application_id ++ (":" ++ digest query filters limit))))

unfoldable pub search_invalidation_prefix : String → String → String
search_invalidation_prefix tenant_id application_id =
    "msearch:" ++ (tenant_id ++ (":" ++ (application_id ++ ":")))
