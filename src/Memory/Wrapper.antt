-- ===== src/Memory/Wrapper.antt =====
-- `MemoryWrapper` of totalrecall/memory/wrapper/service.py. The adapters are the interface of
-- Memory/Models.antt over a state `W`; the feature flags are read as one function for the whole call;
-- clock readings are arguments. An operation returns its outcome and the new wrapper.
use totalrecall.Common.{
  ℕ, Bool, true, false, ◌&&◌, not, Option, none, some, List, [], ◌∷◌, ◌++◌, map, length,
  if◌then◌else◌,
}
use totalrecall.Common.Text.{String, ◌==◌, truthy, contains}
use totalrecall.Common.Dict
use totalrecall.Common.Dict.{Dict}
use totalrecall.Common.Json.{Json}
use totalrecall.Common.Outcome.{Outcome, ok, raise, key_error, exception_name, exception_text}
use totalrecall.Cache
use totalrecall.Cache.{TtlCache, build_search_cache_key}
use totalrecall.Memory.Models.{
  MemoryEntry, MemorySearchRequest, MemorySearchResult, MemoryGetRequest, MemoryUpsertRequest,
  MemoryDeleteRequest, MemoryDeleteResult, MemoryHealth, MemoryCapabilities, MemoryAdapter,
}
use totalrecall.Memory.Tombstone.{TombstoneFilter, is_tombstoned, filter_entries}
use totalrecall.Memory.Metrics.{OperationMetrics, record_success, record_failure}

-- One entry of the log of shadow reads.
pub data ShadowEntry : Type 0 where
  compared :
      (primary_adapter shadow_adapter : String) (primary_count shadow_count : ℕ)
      (discrepancy : Bool)
      → ShadowEntry
  failed : (primary_adapter shadow_adapter error : String) (discrepancy : Bool) → ShadowEntry

-- The readings of one call: the monotonic clock at the cache's lookup and at its update, the time
-- that the call took, and the wall clock.
pub record Clock : Type 0 where
  pub lookup_at : ℕ
  pub store_at : ℕ
  pub latency : ℕ
  pub now : String

pub record MemoryWrapper (W : Type 0) : Type 0 where
  pub tombstone_filter : TombstoneFilter
  pub cache : Option (TtlCache MemorySearchResult)
  pub shadow_log : List ShadowEntry
  pub metrics : OperationMetrics
  pub backend : W

-- `{...} != {...}` on the sets of identifiers
abbrev pub subset : List String → List String → Bool
subset [] ys = true
subset (x ∷ xs) ys = contains x ys && subset xs ys

abbrev pub ids : List MemoryEntry → List String
ids = map (λ e. e.entity_id)

abbrev pub differ : List MemoryEntry → List MemoryEntry → Bool
differ xs ys = not (subset (ids xs) (ids ys) && subset (ids ys) (ids xs))

abbrev pub shadow_entry : String → MemorySearchResult → Outcome MemorySearchResult → ShadowEntry
shadow_entry shadow_name primary (ok shadow) =
    compared primary.adapter_version shadow.adapter_version (length primary.items)
      (length shadow.items) (differ primary.items shadow.items)
shadow_entry shadow_name primary (raise e) =
    failed primary.adapter_version shadow_name (exception_text e) true

-- `self._cache.set(cache_key, search_result)`, if there is a cache
abbrev pub store_search :
    ℕ
    → String
    → MemorySearchResult
    → Option (TtlCache MemorySearchResult)
    → Option (TtlCache MemorySearchResult)
store_search at key result none = none
store_search at key result (some cache) = some (Cache.set at cache key result)

-- What is returned of an adapter's result.
abbrev pub visible : TombstoneFilter → MemorySearchResult → MemorySearchResult
visible f primary = record {
  items = filter_entries f primary.items;
  adapter_version = primary.adapter_version;
}

-- The cache's answer, and the cache after the lookup.
abbrev pub look_up :
    ℕ
    → String
    → Option (TtlCache MemorySearchResult)
    → Option MemorySearchResult × Option (TtlCache MemorySearchResult)
look_up at key none = (none, none)
look_up at key (some cache) = let r = Cache.get at cache key in (r.0, some r.1)

module _ {W : Type 0} where
  -- Whether a call returned or raised is counted after it.
  unfoldable pub counted :
      {A : Type 0} → String → Clock → Outcome A → MemoryWrapper W → Outcome A × MemoryWrapper W
  unfolding exception_name
  counted operation clock (ok a) w = (
    ok a,
    record w { metrics = record_success w.metrics operation clock.latency false clock.now },
  )
  counted operation clock (raise e) w = (
    raise e,
    record w {
      metrics = record_failure w.metrics operation clock.latency (exception_name e) clock.now;
    },
  )

  -- What the adapter left behind goes into the wrapper.
  abbrev pub with_backend :
      {A : Type 0} → MemoryWrapper W → Outcome A × W → Outcome A × MemoryWrapper W
  with_backend w r = (r.0, record w { backend = r.1 })

  module _ (flags : String → String → String) (adapters : Dict (MemoryAdapter W)) where
    abbrev pub active_adapter_name : String
    active_adapter_name = flags "memory.adapter" "null"

    abbrev pub null_or_missing : Option (MemoryAdapter W) → Outcome (MemoryAdapter W)
    null_or_missing (some adapter) = ok adapter
    null_or_missing none = raise (key_error "null")

    -- The adapter that the flag names, or the one registered as "null".
    unfoldable pub active_adapter : Outcome (MemoryAdapter W)
    active_adapter = elim (Dict.get adapters active_adapter_name) [
      | some adapter ↦ ok adapter
      | none ↦ null_or_missing (Dict.get adapters "null")
    ]

    -- Runs an operation of the active adapter.
    unfoldable pub on_active :
        {A : Type 0}
        → (MemoryAdapter W → W → Outcome A × W)
        → MemoryWrapper W
        → Outcome A × MemoryWrapper W
    on_active operation w = elim active_adapter [
      | ok adapter ↦ with_backend w (operation adapter w.backend)
      | raise e ↦ (raise e, w)
    ]

    -- The shadow read: a second adapter is asked too, and only the log tells what it said.
    unfoldable pub shadow_read :
        MemorySearchRequest → MemorySearchResult → MemoryWrapper W → MemoryWrapper W
    shadow_read request primary w =
        let shadow_name = flags "memory.shadow_adapter" "" in
        if truthy shadow_name && not (shadow_name == active_adapter_name)
        then elim (Dict.get adapters shadow_name) [
          | none ↦ w
          | some shadow_adapter ↦
              let r = shadow_adapter.search request w.backend in
              record w {
                backend = r.1;
                shadow_log = w.shadow_log ++ shadow_entry shadow_name primary r.0 ∷ [];
              }
        ]
        else w

    -- The body of the `try`: the adapter's result, with the shadow read, the filter and the cache.
    unfoldable pub search_adapter :
        Clock
        → String
        → MemorySearchRequest
        → MemoryWrapper W
        → Outcome MemorySearchResult × MemoryWrapper W
    search_adapter clock key request w =
        let (primary, w') = on_active (λ adapter. adapter.search request) w in
        elim primary [
          | raise e ↦ (raise e, w')
          | ok result ↦
              let w'' = shadow_read request result w' in
              let shown = visible w''.tombstone_filter result in
              (ok shown, record w'' { cache = store_search clock.store_at key shown w''.cache })
        ]

    module _ (digest : String → Dict Json → ℕ → String) where
      abbrev pub search_key : MemorySearchRequest → String
      search_key request =
          build_search_cache_key digest request.tenant_id request.application_id request.query
            request.filters request.limit

      unfoldable pub search :
          Clock
          → MemorySearchRequest
          → MemoryWrapper W
          → Outcome MemorySearchResult × MemoryWrapper W
      search clock request w =
          let (cached, cache') = look_up clock.lookup_at (search_key request) w.cache in
          let w' = record w { cache = cache' } in
          elim cached [
            | some result ↦ (
              ok result,
              record w' {
                metrics = record_success w.metrics "search" clock.latency true clock.now;
              },
            )
            | none ↦
                let (outcome, w'') = search_adapter clock (search_key request) request w' in
                counted "search" clock outcome w''
          ]

    -- `get` answers nothing for a tombstoned entity, without asking the adapter.
    unfoldable pub get :
        Clock → MemoryGetRequest → MemoryWrapper W → Outcome (Option MemoryEntry) × MemoryWrapper W
    get clock request w =
        if is_tombstoned w.tombstone_filter request.tenant_id request.application_id
          request.entity_id
        then counted "get" clock (ok none) w
        else (let (outcome, w') = on_active (λ adapter. adapter.get request) w in
            counted "get" clock outcome w')

    unfoldable pub upsert :
        Clock → MemoryUpsertRequest → MemoryWrapper W → Outcome MemoryEntry × MemoryWrapper W
    upsert clock request w =
        let (outcome, w') = on_active (λ adapter. adapter.upsert request) w in
        counted "upsert" clock outcome w'

    unfoldable pub delete :
        Clock → MemoryDeleteRequest → MemoryWrapper W → Outcome MemoryDeleteResult × MemoryWrapper W
    delete clock request w =
        let (outcome, w') = on_active (λ adapter. adapter.delete request) w in
        counted "delete" clock outcome w'

    unfoldable pub health : MemoryWrapper W → Outcome MemoryHealth × MemoryWrapper W
    health w = on_active (λ adapter. adapter.health) w

    unfoldable pub capabilities : MemoryWrapper W → Outcome MemoryCapabilities × MemoryWrapper W
    capabilities w = on_active (λ adapter. adapter.capabilities) w
