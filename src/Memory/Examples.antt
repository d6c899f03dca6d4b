-- ===== src/Memory/Examples.antt =====
-- A service over one in-memory adapter, with a cache, and the deletion of one of its memories.
use totalrecall.Common.{
  ℕ, ◌+◌, ◌≤◌, ◌≡◌, refl, Bool, true, false, none, some, List, [], ◌∷◌, length, All, arith,
  if◌then◌else◌,
}
use totalrecall.Common.Text.{String, ◌==◌, truthy}
use totalrecall.Common.Dict
use totalrecall.Common.Dict.{Dict}
use totalrecall.Common.Json.{Json, literal}
use totalrecall.Common.Outcome.{ok}
use totalrecall.Auth.{TenantContext, has_permission}
use totalrecall.Cache
use totalrecall.Cache.{TtlCache, Entry}
use totalrecall.Memory.Models.{
  MemoryStatus, MemoryEntry, MemorySearchRequest, MemorySearchResult, MemoryGetRequest,
  MemoryDeleteRequest, MemoryAdapter,
}
use totalrecall.Memory.Tombstone.{empty_filter, add, is_tombstoned, filter_entries, load_bulk}
use totalrecall.Memory.Stub
use totalrecall.Memory.Stub.{stub_adapter, initial}
use totalrecall.Memory.StubLaws.{IsFound, search-IsFound, stub_adapter-IsScoped}
use totalrecall.Memory.Metrics.{no_operations, total}
use totalrecall.Memory.Wrapper.{MemoryWrapper, Clock, search}
use totalrecall.Memory.Wrapper
use totalrecall.Memory.Deletion.{
  TombstoneRow, MemoryDeleteBody, MemoryDeleteResponse, Store, delete_memory, load_all, exists,
}
use totalrecall.Memory.Clean.{IsShown, IsClean}
use totalrecall.Memory.Histories.{search-serve_all}
use totalrecall.Memory.Sessions.{Call, serve_all}
use totalrecall.Memory.Sessions
use totalrecall.Memory.Counting.{serve_all-total}
use totalrecall.Memory.Rows.{load_bulk-load_all}
use totalrecall.Memory.Forgotten.{Names, wrapper_after, delete_memory-hides, delete_memory-get}

abbrev memory : String → MemoryEntry
memory id = record {
  entity_id = id;
  tenant_id = "acme";
  application_id = "shop";
  summary = "login";
  knowledge = "the login page";
  tags = [];
  source = none;
  confidence = literal "0.7";
  status = MemoryStatus.active;
  created_at = "2026-01-01";
  updated_at = "2026-01-01";
}

-- No two tags are equal: a comparison for the examples, which have no filters.
abbrev never_eq : Json → Json → Bool
never_eq x y = false

abbrev entries : Dict MemoryEntry
entries = ("m1", memory "m1") ∷ ("m2", memory "m2") ∷ []

abbrev adapters : Dict (MemoryAdapter (Dict MemoryEntry))
adapters = ("stub", stub_adapter never_eq) ∷ []

abbrev flags : String → String → String
flags flag default = if flag == "memory.adapter" then "stub" else default

abbrev digest : String → Dict Json → ℕ → String
digest query filters limit = query

abbrev clock : ℕ → Clock
clock at = record { lookup_at = at; store_at = at + 1; latency = 1; now = "2026-01-02" }

abbrev all_of_shop : MemorySearchRequest
all_of_shop = record {
  tenant_id = "acme";
  application_id = "shop";
  query = "login";
  filters = [];
  limit = 5;
}

abbrev wrapper : MemoryWrapper (Dict MemoryEntry)
wrapper = record {
  tombstone_filter = empty_filter;
  cache = some (record { ttl = 30; store = [] });
  shadow_log = [];
  metrics = no_operations;
  backend = entries;
}

abbrev store : Store (Dict MemoryEntry)
store = record { rows = []; wrapper = wrapper }

abbrev both_found : MemorySearchResult
both_found = record { items = memory "m1" ∷ memory "m2" ∷ []; adapter_version = "stub" }

wrapper-search : (search flags adapters digest (clock 3) all_of_shop wrapper).0 ≡ ok both_found
unfolding search Wrapper.search_adapter Wrapper.on_active Wrapper.active_adapter Wrapper.counted
    Wrapper.shadow_read stub_adapter Stub.search Dict.get Cache.get filter_entries truthy
wrapper-search = refl

nothing_stored : IsClean empty_filter wrapper.cache
unfolding Dict.get
nothing_stored key entry h = absurd (ground arith)

search-IsFound_example : All (IsFound all_of_shop) both_found.items × (length both_found.items ≤ 5)
unfolding Stub.search
search-IsFound_example = search-IsFound never_eq all_of_shop entries both_found refl

abbrev get_request : String → MemoryGetRequest
get_request id = record { tenant_id = "acme"; application_id = "shop"; entity_id = id }

abbrev delete_request : MemoryDeleteRequest
delete_request = record {
  tenant_id = "acme";
  application_id = "shop";
  entity_id = "m1";
  deleted_by = "ann";
  reason = none;
}

abbrev admin : TenantContext
admin = record { tenant_id = "acme"; actor_id = "ann"; roles = "admin" ∷ []; permissions = [] }

abbrev body : MemoryDeleteBody
body = record { application_id = "shop"; reason = none }

abbrev response : MemoryDeleteResponse
response = record { entity_id = "m1"; deleted = true; tombstoned = true }

deletion-returns : (delete_memory (ok tt) (ok tt) admin "m1" body store).0 ≡ ok response
unfolding delete_memory has_permission
deletion-returns = refl

abbrev calls : List Call
calls =
    Sessions.search (clock 3) all_of_shop
    ∷ Sessions.upsert (clock 4) (record { memory = memory "m1" })
    ∷ Sessions.get (clock 5) (get_request "m1")
    ∷ []

abbrev m2_found : MemorySearchResult
m2_found = record { items = memory "m2" ∷ []; adapter_version = "stub" }

later-search :
    (search flags adapters digest
      (clock 9)
      all_of_shop
      (wrapper_after flags adapters digest (ok tt) (ok tt) admin "m1" body store calls)).0
    ≡ ok m2_found
unfolding search Wrapper.search_adapter Wrapper.on_active Wrapper.active_adapter Wrapper.counted
    Wrapper.shadow_read stub_adapter Stub.search Dict.get Cache.get filter_entries truthy
    delete_memory serve_all Wrapper.get Wrapper.upsert Stub.upsert Stub.get Cache.set
    Cache.invalidate_prefix Dict.put Dict.remove add is_tombstoned has_permission Cache.delete_keys
    Cache.build_search_cache_key
later-search = refl

delete_memory-hides_example : All (λ e. ¬ Names "acme" "shop" "m1" e) m2_found.items
delete_memory-hides_example =
    delete_memory-hides flags adapters digest (ok tt) (ok tt) admin "m1" body store response calls
      (clock 9) (stub_adapter-IsScoped never_eq) nothing_stored deletion-returns
      (tt, (tt, (tt, tt))) all_of_shop m2_found later-search

delete_memory-get_example :
    (Wrapper.get flags adapters
      (clock 9)
      (get_request "m1")
      (wrapper_after flags adapters digest (ok tt) (ok tt) admin "m1" body store calls)).0
    ≡ ok none
delete_memory-get_example =
    delete_memory-get flags adapters digest (ok tt) (ok tt) admin "m1" body store response calls
      (clock 9) (stub_adapter-IsScoped never_eq) nothing_stored deletion-returns
      (tt, (tt, (tt, tt)))

-- A search that fills the cache, a deletion, and a search that fills it again.
abbrev filling : List Call
filling =
    Sessions.search (clock 3) all_of_shop
    ∷ Sessions.forget (ok tt) (ok tt) admin "m1" body
    ∷ Sessions.search (clock 5) all_of_shop
    ∷ []

abbrev filled : MemoryWrapper (Dict MemoryEntry)
filled = (serve_all flags adapters digest store filling).wrapper

-- The next search is answered by the cache, from which the deletion removed the first result.
cache-answers :
    (is_tombstoned filled.tombstone_filter "acme" "shop" "m1" ≡ true)
    × ((Wrapper.look_up 9 (Wrapper.search_key flags adapters digest all_of_shop) filled.cache).0
        ≡ some m2_found)
    × ((search flags adapters digest (clock 9) all_of_shop filled).0 ≡ ok m2_found)
unfolding search Wrapper.search_adapter Wrapper.on_active Wrapper.active_adapter Wrapper.counted
    Wrapper.shadow_read stub_adapter Stub.search Dict.get Cache.get filter_entries truthy
    delete_memory serve_all Sessions.serve Cache.set Cache.invalidate_prefix Dict.put Dict.remove
    add is_tombstoned has_permission Cache.delete_keys Cache.build_search_cache_key
    Cache.search_invalidation_prefix
cache-answers = (refl, refl, refl)

search-serve_all_example : All (IsShown filled.tombstone_filter) m2_found.items
search-serve_all_example =
    search-serve_all flags adapters digest (stub_adapter-IsScoped never_eq) store filling (clock 9)
      all_of_shop m2_found refl (tt, (refl, (tt, tt))) cache-answers.2

serve_all-total_example :
    total (serve_all flags adapters digest store calls).wrapper.metrics "search" ≡ 1
unfolding Dict.get_or
serve_all-total_example = serve_all-total flags adapters digest store calls "search"

abbrev row : String → TombstoneRow
row tenant = record {
  memory_id = "m1";
  tenant_id = tenant;
  application_id = "shop";
  reason = none;
  deleted_by = "ann";
}

load_bulk-load_all_example :
    is_tombstoned (load_bulk empty_filter (load_all (row "acme" ∷ []))) "acme" "shop" "m1"
    ≡ exists (row "acme" ∷ []) "acme" "shop" "m1"
load_bulk-load_all_example = load_bulk-load_all (row "acme" ∷ []) "acme" "shop" "m1"
