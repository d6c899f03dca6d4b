-- ===== src/Memory/Stub.antt =====
-- totalrecall/memory/adapters/stub/adapter.py: the in-memory adapter. Python's `==` on the open
-- values of tags and filters is the parameter `json_eq`.
use totalrecall.Common.{
  Bool, true, false, ◌&&◌, not, Option, none, some, List, [], ◌∷◌, take, filter, if◌then◌else◌,
}
use totalrecall.Common.Text.{String, ◌==◌}
use totalrecall.Common.Dict
use totalrecall.Common.Dict.{Dict}
use totalrecall.Common.Json.{Json, null}
use totalrecall.Common.Outcome.{Outcome, ok}
use totalrecall.Memory.Models.{
  MemoryStatus, active, deleted, MemoryHealthStatus, MemoryEntry, MemorySearchRequest,
  MemorySearchResult, MemoryGetRequest, MemoryUpsertRequest, MemoryDeleteRequest,
  MemoryDeleteResult, MemoryHealth, MemoryCapabilities, MemoryAdapter,
}

abbrev pub is_active : MemoryStatus → Bool
is_active active = true
is_active _ = false

-- The entries, keyed by identifier. A list of initial entries is folded into it in order.
unfoldable pub initial : List MemoryEntry → Dict MemoryEntry → Dict MemoryEntry
unfolding Dict.put
initial [] d = d
initial (e ∷ es) d = initial es (Dict.put d e.entity_id e)

module _ (json_eq : Json → Json → Bool) where
  -- `entry.tags.get(key) != value` for each filter: a missing tag is `None`.
  unfoldable pub matches_filters : MemoryEntry → Dict Json → Bool
  matches_filters entry [] = true
  matches_filters entry ((key, value) ∷ filters) =
      let rest = matches_filters entry filters in
      if not (json_eq (Dict.get_or entry.tags key null) value) then false else rest

  abbrev pub matches : MemorySearchRequest → MemoryEntry → Bool
  matches request entry =
      entry.tenant_id == request.tenant_id
      && entry.application_id == request.application_id
      && is_active entry.status
      && matches_filters entry request.filters

  unfoldable pub search :
      MemorySearchRequest → Dict MemoryEntry → Outcome MemorySearchResult × Dict MemoryEntry
  unfolding matches_filters
  search request entries = (
    ok (record {
      items = take request.limit (filter (matches request) (Dict.values entries));
      adapter_version = "stub";
    }),
    entries,
  )

abbrev pub owned : String → String → MemoryEntry → Bool
owned tenant_id application_id entry =
    entry.tenant_id == tenant_id && entry.application_id == application_id

unfoldable pub get :
    MemoryGetRequest → Dict MemoryEntry → Outcome (Option MemoryEntry) × Dict MemoryEntry
get request entries = elim (Dict.get entries request.entity_id) [
  | none ↦ (ok none, entries)
  | some entry ↦
      if owned request.tenant_id request.application_id entry && is_active entry.status
      then (ok (some entry), entries)
      else (ok none, entries)
]

unfoldable pub upsert :
    MemoryUpsertRequest → Dict MemoryEntry → Outcome MemoryEntry × Dict MemoryEntry
upsert request entries =
    (ok request.memory, Dict.put entries request.memory.entity_id request.memory)

abbrev pub delete_result : MemoryDeleteRequest → Bool → MemoryDeleteResult
delete_result request done = record {
  entity_id = request.entity_id;
  deleted = done;
  adapter_version = "stub";
}

unfoldable pub delete :
    MemoryDeleteRequest → Dict MemoryEntry → Outcome MemoryDeleteResult × Dict MemoryEntry
delete request entries = elim (Dict.get entries request.entity_id) [
  | none ↦ (ok (delete_result request false), entries)
  | some entry ↦
      if owned request.tenant_id request.application_id entry
      then (
        ok (delete_result request true),
        Dict.put entries request.entity_id (record entry { status = deleted }),
      )
      else (ok (delete_result request false), entries)
]

unfoldable pub health : Dict MemoryEntry → Outcome MemoryHealth × Dict MemoryEntry
health entries = (
  ok (record { status = MemoryHealthStatus.ok; adapter_version = "stub"; degraded = false }),
  entries,
)

unfoldable pub capabilities : Dict MemoryEntry → Outcome MemoryCapabilities × Dict MemoryEntry
capabilities entries = (
  ok (record {
    adapter_version = "stub";
    supports_search = true;
    supports_get = true;
    supports_upsert = true;
    supports_delete = true;
    supports_shadow_read = true;
  }),
  entries,
)

unfoldable pub stub_adapter : (Json → Json → Bool) → MemoryAdapter (Dict MemoryEntry)
unfolding search get upsert delete health capabilities
stub_adapter json_eq = record {
  adapter_version = "stub";
  search = search json_eq;
  get = get;
  upsert = upsert;
  delete = delete;
  health = health;
  capabilities = capabilities;
}
