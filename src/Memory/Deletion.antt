-- ===== src/Memory/Deletion.antt =====
-- `delete_memory` of totalrecall/api/routes/memories.py, with the table of
-- totalrecall/storage/tombstone_repo.py. The filter and the cache are the wrapper's own objects.
use totalrecall.Common.{
  Bool, true, false, ◌&&◌, ◌||◌, not, Option, none, some, List, [], ◌∷◌, ◌++◌, map, if◌then◌else◌,
}
use totalrecall.Common.Text.{String, ◌==◌}
use totalrecall.Common.Outcome.{Outcome, ok, raise, http}
use totalrecall.Auth.{TenantContext, has_permission, delete_memory as may_delete}
use totalrecall.Cache
use totalrecall.Cache.{TtlCache, search_invalidation_prefix}
use totalrecall.Memory.Models.{MemorySearchResult}
use totalrecall.Memory.Tombstone
use totalrecall.Memory.Tombstone.{TombstoneFilter, Triple}
use totalrecall.Memory.Wrapper.{MemoryWrapper}

-- A row of memory_tombstones. Its key is `memory_id` alone.
pub record TombstoneRow : Type 0 where
  pub memory_id : String
  pub tenant_id : String
  pub application_id : String
  pub reason : Option String
  pub deleted_by : String

abbrev pub has_row : String → List TombstoneRow → Bool
has_row memory_id [] = false
has_row memory_id (row ∷ rows) = row.memory_id == memory_id || has_row memory_id rows

-- `insert ... on conflict (memory_id) do nothing`
unfoldable pub add : List TombstoneRow → TombstoneRow → List TombstoneRow
add rows row = if has_row row.memory_id rows then rows else rows ++ row ∷ []

unfoldable pub load_all : List TombstoneRow → List Triple
load_all rows = map (λ r. (r.tenant_id, r.application_id, r.memory_id)) rows

unfoldable pub exists : List TombstoneRow → String → String → String → Bool
exists [] tenant_id application_id entity_id = false
exists (r ∷ rows) tenant_id application_id entity_id =
    r.memory_id == entity_id && r.tenant_id == tenant_id && r.application_id == application_id
    || exists rows tenant_id application_id entity_id

pub record MemoryDeleteBody : Type 0 where
  pub application_id : String
  pub reason : Option String

pub record MemoryDeleteResponse : Type 0 where
  pub entity_id : String
  pub deleted : Bool
  pub tombstoned : Bool

-- The state that the route works on: the table, and the shared wrapper.
pub record Store (W : Type 0) : Type 0 where
  pub rows : List TombstoneRow
  pub wrapper : MemoryWrapper W

abbrev pub invalidate :
    String → Option (TtlCache MemorySearchResult) → Option (TtlCache MemorySearchResult)
invalidate prefix none = none
invalidate prefix (some cache) = some (Cache.invalidate_prefix cache prefix).1

module _ {W : Type 0} where
  abbrev pub tombstone : String → String → String → MemoryWrapper W → MemoryWrapper W
  tombstone tenant_id application_id entity_id w = record w {
    tombstone_filter = Tombstone.add w.tombstone_filter tenant_id application_id entity_id;
  }

  -- The writes come in the source's order: the table (which may raise), the filter, the audit event
  -- (which may raise), the cache. `insert` and `audit` are the outcomes of the two database calls.
  unfoldable pub delete_memory :
      Outcome (Unit {0})
      → Outcome (Unit {0})
      → TenantContext
      → String
      → MemoryDeleteBody
      → Store W
      → Outcome MemoryDeleteResponse × Store W
  delete_memory insert audit context entity_id body s =
      if not (has_permission context.roles may_delete)
      then (raise (http 403 "Permission 'memory:delete' required."), s)
      else elim insert [
        | raise e ↦ (raise e, s)
        | ok _ ↦
            let row : TombstoneRow = record {
              memory_id = entity_id;
              tenant_id = context.tenant_id;
              application_id = body.application_id;
              reason = body.reason;
              deleted_by = context.actor_id;
            } in
            let marked : Store W = record {
              rows = add s.rows row;
              wrapper = tombstone context.tenant_id body.application_id entity_id s.wrapper;
            } in
            elim audit [
              | raise e ↦ (raise e, marked)
              | ok _ ↦ (
                ok (record { entity_id = entity_id; deleted = true; tombstoned = true }),
                record marked {
                  wrapper = record (marked.wrapper) {
                    cache =
                        invalidate
                          (search_invalidation_prefix context.tenant_id body.application_id)
                          marked.wrapper.cache;
                  };
                },
              )
            ]
      ]
