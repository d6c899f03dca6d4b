-- ===== src/Learning/Table.antt =====
-- The table of discoveries of totalrecall/storage/learning_repo.py: its rows in the order of
-- insertion. A statement is a function on the table; times are arguments.
use totalrecall.Common.{
  ℕ, ◌-◌, Bool, true, false, ◌&&◌, ◌||◌, not, Option, none, some, List, [], ◌∷◌, map, filter,
  length, any, is_empty, if◌then◌else◌,
}
use totalrecall.Common
use totalrecall.Common.Text.{String, ◌++◌, ◌==◌, truthy, contains}
use totalrecall.Common.Dict
use totalrecall.Common.Dict.{Dict}
use totalrecall.Common.Json.{Json, Float}
use totalrecall.Catalogue.{CatalogueSource}
use totalrecall.Learning.Models.{
  LearningDiscoveryType, LearningDiscoveryStatus, discovered, LearningApprovalDecision,
  LearningApproval, LearningDeltaState, LearningDiscovery, LearningRun, BulkDecisionResult,
}

pub record DiscoveryRow : Type 0 where
  pub id : String
  pub run_id : String
  pub tenant_id : String
  pub application_id : String
  pub discovery_type : LearningDiscoveryType
  pub status : LearningDiscoveryStatus
  pub delta_state : LearningDeltaState
  pub summary : String
  pub confidence : Float
  pub source : CatalogueSource
  pub proposed_tags : Dict Json
  pub content_hash : Option String
  pub warnings : List String
  pub approved_by : Option String
  pub approved_at : Option String
  pub rejection_reason : Option String

-- The row that `save_report` inserts for a discovery.
abbrev pub discovery_row : LearningRun → LearningDiscovery → DiscoveryRow
discovery_row run discovery = record {
  id = discovery.discovery_id;
  run_id = run.run_id;
  tenant_id = run.tenant_id;
  application_id = run.application_id;
  discovery_type = discovery.discovery_type;
  status = discovery.status;
  delta_state = discovery.delta.state;
  summary = discovery.summary;
  confidence = discovery.confidence;
  source = discovery.source;
  proposed_tags = discovery.proposed_tags;
  content_hash = discovery.delta.current_hash;
  warnings = discovery.warnings;
  approved_by = none;
  approved_at = none;
  rejection_reason = none;
}

-- `insert ... on conflict (id) do nothing`, for each discovery of the run.
unfoldable pub insert_discoveries :
    LearningRun → List LearningDiscovery → List DiscoveryRow → List DiscoveryRow
insert_discoveries run [] rows = rows
insert_discoveries run (discovery ∷ discoveries) rows = insert_discoveries run discoveries (
    if any (λ r. r.id == discovery.discovery_id) rows
    then rows
    else Common.◌++◌ rows (discovery_row run discovery ∷ []))

abbrev pub is_discovered : LearningDiscoveryStatus → Bool
is_discovered discovered = true
is_discovered _ = false

abbrev pub is_approved : LearningDiscoveryStatus → Bool
is_approved LearningDiscoveryStatus.approved = true
is_approved _ = false

-- `where id = any(ids) and tenant_id = ... and status = 'discovered'`
abbrev pub open_row : String → List String → DiscoveryRow → Bool
open_row tenant_id ids row =
    contains row.id ids && row.tenant_id == tenant_id && is_discovered row.status

abbrev pub approve_row : String → String → DiscoveryRow → DiscoveryRow
approve_row actor_id now row = record row {
  status = LearningDiscoveryStatus.approved;
  approved_by = some actor_id;
  approved_at = some now;
}

abbrev pub reject_row : String → Option String → String → DiscoveryRow → DiscoveryRow
reject_row actor_id reason now row = record row {
  status = LearningDiscoveryStatus.rejected;
  approved_by = some actor_id;
  approved_at = some now;
  rejection_reason = reason;
}

-- An `update` statement: the rows, and the identifiers of those that it changed.
abbrev pub update_rows :
    (DiscoveryRow → Bool)
    → (DiscoveryRow → DiscoveryRow)
    → List DiscoveryRow
    → List String × List DiscoveryRow
update_rows chosen change rows =
    (map (λ r. r.id) (filter chosen rows), map (λ r. if chosen r then change r else r) rows)

unfoldable pub approve_discovery :
    String → String → String → String → List DiscoveryRow → Bool × List DiscoveryRow
approve_discovery tenant_id discovery_id actor_id now rows =
    let (ids, rows') =
      update_rows (open_row tenant_id (discovery_id ∷ [])) (approve_row actor_id now) rows in
    (not (is_empty ids), rows')

unfoldable pub reject_discovery :
    String → String → String → Option String → String → List DiscoveryRow → Bool × List DiscoveryRow
reject_discovery tenant_id discovery_id actor_id reason now rows =
    let (ids, rows') =
      update_rows (open_row tenant_id (discovery_id ∷ [])) (reject_row actor_id reason now) rows in
    (not (is_empty ids), rows')

abbrev pub bulk_result : List String → List String → BulkDecisionResult
bulk_result discovery_ids ids = record {
  processed = length ids;
  skipped = length discovery_ids - length ids;
  discovery_ids = ids;
}

unfoldable pub bulk_approve_discoveries :
    String
    → List String
    → String
    → String
    → List DiscoveryRow
    → BulkDecisionResult × List DiscoveryRow
bulk_approve_discoveries tenant_id [] actor_id now rows = (bulk_result [] [], rows)
bulk_approve_discoveries tenant_id (d ∷ ds) actor_id now rows =
    let (ids, rows') = update_rows (open_row tenant_id (d ∷ ds)) (approve_row actor_id now) rows in
    (bulk_result (d ∷ ds) ids, rows')

unfoldable pub bulk_reject_discoveries :
    String
    → List String
    → String
    → Option String
    → String
    → List DiscoveryRow
    → BulkDecisionResult × List DiscoveryRow
bulk_reject_discoveries tenant_id [] actor_id reason now rows = (bulk_result [] [], rows)
bulk_reject_discoveries tenant_id (d ∷ ds) actor_id reason now rows =
    let (ids, rows') =
      update_rows (open_row tenant_id (d ∷ ds)) (reject_row actor_id reason now) rows in
    (bulk_result (d ∷ ds) ids, rows')

-- `row["approved_at"] or datetime.now(UTC)`; the time of the reading is an argument.
abbrev pub row_approval : String → DiscoveryRow → Option LearningApproval
row_approval now row = elim row.approved_by [
  | none ↦ none
  | some actor ↦
      if truthy actor
      then some (record {
        decision =
            if is_approved row.status
            then LearningApprovalDecision.approved
            else LearningApprovalDecision.rejected;
        actor_id = actor;
        decided_at = elim row.approved_at [ none ↦ now | some t ↦ t ];
        reason = row.rejection_reason;
      })
      else none
]

unfoldable pub row_to_discovery : String → DiscoveryRow → LearningDiscovery
row_to_discovery now row = record {
  discovery_id = row.id;
  discovery_type = row.discovery_type;
  status = row.status;
  delta = record {
    state = row.delta_state;
    previous_hash = none;
    current_hash = row.content_hash;
    changed_fields = [];
  };
  summary = row.summary;
  confidence = row.confidence;
  source = row.source;
  proposed_tags = row.proposed_tags;
  approval = row_approval now row;
  warnings = row.warnings;
}

unfoldable pub get_discovery :
    String → String → String → List DiscoveryRow → Option (LearningDiscovery × String)
get_discovery now tenant_id discovery_id [] = none
get_discovery now tenant_id discovery_id (row ∷ rows) =
    if row.id == discovery_id && row.tenant_id == tenant_id
    then some (row_to_discovery now row, row.application_id)
    else get_discovery now tenant_id discovery_id rows

-- `source.get("file_path") or source.get("reference", "")`
abbrev pub source_path : CatalogueSource → String
source_path source = elim source.file_path [
  | none ↦ source.reference
  | some path ↦ if truthy path then path else source.reference
]

-- An absent symbol is formatted as `None`.
abbrev pub source_symbol : CatalogueSource → String
source_symbol source = elim source.symbol_name [ none ↦ "None" | some name ↦ name ]

-- One row of the loop of `get_previous_hashes`.
abbrev pub add_hash : DiscoveryRow → Option String → Dict String → Dict String
add_hash row none result = result
add_hash row (some content_hash) result =
    if truthy content_hash
    then Dict.put result (source_path row.source ++ ("::" ++ source_symbol row.source)) content_hash
    else result

-- The hashes of the rows of one run.
unfoldable pub row_hashes : Dict String → List DiscoveryRow → Dict String
row_hashes result [] = result
row_hashes result (row ∷ rows) = row_hashes (add_hash row row.content_hash result) rows
