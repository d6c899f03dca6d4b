-- ===== src/Memory/Models.antt =====
-- totalrecall/memory/models.py and the adapter protocol of memory/adapters/base.py. Times are texts
-- (ISO 8601), as the program hands them on. The length limits of the fields are checked where a
-- request enters the service, and are not part of these types.
use totalrecall.Common.{ℕ, Bool, Option, List}
use totalrecall.Common.Text.{String}
use totalrecall.Common.Dict.{Dict}
use totalrecall.Common.Json.{Json, Float}
use totalrecall.Common.Outcome.{Outcome}

pub data MemoryStatus : Type 0 where
  active deleted tombstoned deprecated : MemoryStatus

pub data MemoryHealthStatus : Type 0 where
  ok degraded unavailable : MemoryHealthStatus

pub record MemorySource : Type 0 where
  pub source_type : String
  pub reference : String
  pub file_path : Option String
  pub symbol_name : Option String
  pub commit_id : Option String
  pub scan_id : Option String
  pub ingested_at : String

pub record MemoryEntry : Type 0 where
  pub entity_id : String
  pub tenant_id : String
  pub application_id : String
  pub summary : String
  pub knowledge : String
  pub tags : Dict Json
  pub source : Option MemorySource
  pub confidence : Float
  pub status : MemoryStatus
  pub created_at : String
  pub updated_at : String

pub record MemorySearchRequest : Type 0 where
  pub tenant_id : String
  pub application_id : String
  pub query : String
  pub filters : Dict Json
  pub limit : ℕ

pub record MemorySearchResult : Type 0 where
  pub items : List MemoryEntry
  pub adapter_version : String

pub record MemoryGetRequest : Type 0 where
  pub tenant_id : String
  pub application_id : String
  pub entity_id : String

pub record MemoryUpsertRequest : Type 0 where
  pub memory : MemoryEntry

pub record MemoryDeleteRequest : Type 0 where
  pub tenant_id : String
  pub application_id : String
  pub entity_id : String
  pub deleted_by : String
  pub reason : Option String

pub record MemoryDeleteResult : Type 0 where
  pub entity_id : String
  pub deleted : Bool
  pub adapter_version : String

pub record MemoryHealth : Type 0 where
  pub status : MemoryHealthStatus
  pub adapter_version : String
  pub degraded : Bool

pub record MemoryCapabilities : Type 0 where
  pub adapter_version : String
  pub supports_search : Bool
  pub supports_get : Bool
  pub supports_upsert : Bool
  pub supports_delete : Bool
  pub supports_shadow_read : Bool

-- The protocol. `W` is the state behind the adapters (dictionaries, remote services); an operation
-- reads it, may raise, and leaves a new one.
pub record MemoryAdapter (W : Type 0) : Type 0 where
  pub adapter_version : String
  pub search : MemorySearchRequest → W → Outcome MemorySearchResult × W
  pub get : MemoryGetRequest → W → Outcome (Option MemoryEntry) × W
  pub upsert : MemoryUpsertRequest → W → Outcome MemoryEntry × W
  pub delete : MemoryDeleteRequest → W → Outcome MemoryDeleteResult × W
  pub health : W → Outcome MemoryHealth × W
  pub capabilities : W → Outcome MemoryCapabilities × W
