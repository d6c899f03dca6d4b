-- ===== src/Memory/Visibility.antt =====
-- What a search leaves and what it shows, whether the cache answers it or an adapter.
use totalrecall.Common.{
  ℕ, ◌≡◌, refl, subst, ◌∙◌, not, some, arith, All, All-filter, Option-cases, inl, inr,
}
use totalrecall.Common.Text.{String}
use totalrecall.Common.Dict
use totalrecall.Common.Dict.{Dict, get-put, get-remove}
use totalrecall.Common.Json.{Json}
use totalrecall.Common.Outcome.{Outcome, ok, raise, Outcome-cases, ok-injective}
use totalrecall.Cache.Laws.{search_key-prefix}
use totalrecall.Memory.Models.{MemorySearchRequest, MemorySearchResult, MemoryAdapter}
use totalrecall.Memory.Tombstone.{TombstoneFilter, is_tombstoned, filter_entries}
use totalrecall.Memory.Wrapper.{
  MemoryWrapper, Clock, counted, active_adapter, on_active, shadow_read, visible, search_adapter,
  look_up, search_key, search,
}
use totalrecall.Memory.Clean.{
  IsShown, IsFiled, IsClean, IsOwn, IsScoped, filter_entries-IsShown, look_up-IsClean,
  look_up-IsShown, store_search-IsClean, All-both, All-map,
}

-- What a call may leave, from a filter `f`: the filter, a clean cache, and a result that shows no
-- tombstoned entry.
abbrev pub IsSound :
    {W : Type 0} → TombstoneFilter → Outcome MemorySearchResult × MemoryWrapper W → Type 0
IsSound f (outcome, w') =
    (w'.tombstone_filter ≡ f)
    × IsClean f w'.cache
    × ((shown : MemorySearchResult) → outcome ≡ ok shown → All (IsShown f) shown.items)

counted-IsSound :
    {W : Type 0} (clock : Clock) (f : TombstoneFilter)
    (r : Outcome MemorySearchResult × MemoryWrapper W)
    → IsSound f r
    → IsSound f (counted "search" clock r.0 r.1)
unfolding counted
counted-IsSound clock f (ok r, w) s = s
counted-IsSound clock f (raise e, w) s = s

module _ {W : Type 0} (flags : String → String → String) (adapters : Dict (MemoryAdapter W)) where
  active_adapter-registered :
      (adapter : MemoryAdapter W)
      → active_adapter flags adapters ≡ ok adapter
      → (name : String) × (Dict.get adapters name ≡ some adapter)
  unfolding active_adapter
  active_adapter-registered adapter h =
      elim (Option-cases (Dict.get adapters (flags "memory.adapter" "null"))) [
        | inr (a, e) ↦ (flags "memory.adapter" "null", e ∙ ground arith)
        | inl e ↦ elim (Option-cases (Dict.get adapters "null")) [
          | inl f ↦ absurd (ground arith)
          | inr (a, f) ↦ ("null", f ∙ ground arith)
        ]
      ]

  -- An adapter's call leaves the filter and the cache alone.
  pub on_active-frame :
      {A : Type 0} (operation : MemoryAdapter W → W → Outcome A × W) (w : MemoryWrapper W)
      → ((on_active flags adapters operation w).1.tombstone_filter ≡ w.tombstone_filter)
        × ((on_active flags adapters operation w).1.cache ≡ w.cache)
  unfolding on_active
  on_active-frame operation w = ground arith

  shadow_read-frame :
      (request : MemorySearchRequest) (primary : MemorySearchResult) (w : MemoryWrapper W)
      → ((shadow_read flags adapters request primary w).tombstone_filter ≡ w.tombstone_filter)
        × ((shadow_read flags adapters request primary w).cache ≡ w.cache)
  unfolding shadow_read
  shadow_read-frame request primary w = ground arith

  on_active-IsOwn :
      IsScoped adapters
      → (request : MemorySearchRequest) (w : MemoryWrapper W) (r : MemorySearchResult)
      → (on_active flags adapters (λ adapter. adapter.search request) w).0 ≡ ok r
      → All (IsOwn request) r.items
  unfolding on_active
  on_active-IsOwn scoped request w r h = elim (Outcome-cases (active_adapter flags adapters)) [
    | inr (e, raised) ↦ absurd (ground arith)
    | inl (adapter, found) ↦
        let (name, registered) = active_adapter-registered adapter found in
        scoped name adapter request w.backend r registered (ground arith)
  ]

  module _ (scoped : IsScoped adapters) (digest : String → Dict Json → ℕ → String) (clock : Clock)
      (request : MemorySearchRequest) where
    abbrev key : String
    key = search_key flags adapters digest request

    visible-IsClean :
        (f : TombstoneFilter) (r : MemorySearchResult)
        → All (IsOwn request) r.items
        → All (λ e. IsShown f e × IsFiled key e) (visible f r).items
    unfolding filter_entries
    visible-IsClean f r own =
        All-both (IsShown f) (IsFiled key) (filter_entries f r.items)
          (filter_entries-IsShown f r.items)
          (All-filter (IsFiled key)
            (λ e. not (is_tombstoned f e.tenant_id e.application_id e.entity_id)) r.items
            (All-map (IsOwn request) (IsFiled key)
              (λ e o.
                rw (o.0, o.1)
                  (search_key-prefix digest request.tenant_id request.application_id request.query
                    request.filters request.limit))
              r.items own))

    search_adapter-IsSound :
        (w : MemoryWrapper W)
        → IsClean w.tombstone_filter w.cache
        → IsSound w.tombstone_filter (search_adapter flags adapters clock key request w)
    search_adapter-IsSound w clean =
        let f = w.tombstone_filter in
        let called = on_active flags adapters (λ adapter. adapter.search request) w in
        let (same_filter, same_cache) = on_active-frame (λ adapter. adapter.search request) w in
        elim (Outcome-cases called.0) [
          | inr (e, raised) ↦
              unfold search_adapter in
              rw (raised, search_adapter) (same_filter, rw same_cache clean, λ shown h. cc h)
          | inl (r, returned) ↦
              let (kept_filter, kept_cache) = shadow_read-frame request r called.1 in
              let filter_after = kept_filter ∙ same_filter in
              unfold search_adapter in
              rw (returned, search_adapter, filter_after, kept_cache, same_cache)
                (
                  refl,
                  store_search-IsClean f clock.store_at key (visible f r) w.cache
                      (visible-IsClean f r (on_active-IsOwn scoped request w r returned)) clean,
                  λ shown h.
                      subst (λ s. All (IsShown f) s.items) (ok-injective h)
                        (filter_entries-IsShown f r.items),
                )
        ]

    search-IsSound_lem :
        (w : MemoryWrapper W)
        → IsClean w.tombstone_filter w.cache
        → IsSound w.tombstone_filter (search flags adapters digest clock request w)
    search-IsSound_lem w clean =
        let f = w.tombstone_filter in
        let looked = look_up clock.lookup_at key w.cache in
        let looked_clean = look_up-IsClean f clock.lookup_at key w.cache clean in
        elim (Option-cases looked.0) [
          | inr (r, hit) ↦
              unfold search in
              rw (hit, search)
                (
                  refl,
                  looked_clean,
                  λ shown h.
                      subst (λ s. All (IsShown f) s.items) (ok-injective h)
                        (All-map (λ e. IsShown f e × IsFiled key e) (IsShown f) (λ e b. b.0) r.items
                          (look_up-IsShown f clock.lookup_at key w.cache r clean hit)),
                )
          | inl miss ↦
              unfold search in
              rw (miss, search)
                (counted-IsSound clock f
                  (search_adapter flags adapters clock key request (record w { cache = looked.1 }))
                  (search_adapter-IsSound (record w { cache = looked.1 }) looked_clean))
        ]

-- A search leaves the filter as it is and the cache clean, and shows no tombstoned entry.
pub search-IsSound :
    {W : Type 0} (flags : String → String → String) (adapters : Dict (MemoryAdapter W))
    (digest : String → Dict Json → ℕ → String) (clock : Clock) (request : MemorySearchRequest)
    (w : MemoryWrapper W)
    → IsScoped adapters
    → IsClean w.tombstone_filter w.cache
    → IsSound w.tombstone_filter (search flags adapters digest clock request w)
search-IsSound flags adapters digest clock request w scoped clean =
    search-IsSound_lem flags adapters scoped digest clock request w clean
