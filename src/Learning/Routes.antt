-- ===== src/Learning/Routes.antt =====
-- The approval and the rejection of a discovery in totalrecall/api/routes/learning.py. The table of
-- discoveries and the catalogue are the state; the outcome of the audit record, the time, of which one
-- reading serves the call, and a fresh identifier are arguments.
use totalrecall.Common.{
  Bool, true, false, not, Option, none, some, List, [], ◌∷◌, is_empty, if◌then◌else◌,
}
use totalrecall.Common.Text.{String, ◌++◌}
use totalrecall.Common.Outcome.{Outcome, ok, raise, http}
use totalrecall.Auth.{TenantContext, has_permission}
use totalrecall.Catalogue.{CatalogueEntry}
use totalrecall.Catalogue.Table.{upsert}
use totalrecall.Learning.Models.{BulkDecisionResult}
use totalrecall.Learning.Promotion.{should_promote, discovery_to_entry}
use totalrecall.Learning.Table.{
  DiscoveryRow, get_discovery, bulk_approve_discoveries, bulk_reject_discoveries,
}
use totalrecall.Learning.Table

pub record ApproveDiscoveryBody : Type 0 where
  pub reason : Option String

pub record RejectDiscoveryBody : Type 0 where
  pub reason : Option String

pub record BulkApproveBody : Type 0 where
  pub discovery_ids : List String
  pub reason : Option String

-- The answers of the two routes.
pub record Approved : Type 0 where
  pub discovery_id : String
  pub approved : Bool
  pub promoted : Bool

pub record Rejected : Type 0 where
  pub discovery_id : String
  pub rejected : Bool

pub record Store : Type 0 where
  pub rows : List DiscoveryRow
  pub entries : List CatalogueEntry

abbrev forbidden : {A : Type 0} → Outcome A
forbidden = raise (http 403 "Permission 'learning:promote' required.")

abbrev already_processed : {A : Type 0} → String → Outcome A
already_processed id =
    raise (http 404 ("Discovery '" ++ (id ++ "' not found or already processed.")))

-- The discovery is read back, and becomes an entry of the catalogue if its type is promotable.
unfoldable pub promote : String → String → TenantContext → String → Store → Bool × Store
promote now fresh context discovery_id s =
    elim (get_discovery now context.tenant_id discovery_id s.rows) [
      | none ↦ (false, s)
      | some (discovery, application_id) ↦
          if should_promote discovery
          then (
            true,
            record s {
              entries =
                  (upsert now fresh
                    (discovery_to_entry now discovery context.tenant_id application_id
                      context.actor_id)
                    s.entries).1;
            },
          )
          else (false, s)
    ]

-- The audit event is written last, and raises after the changes.
abbrev pub audited : {A : Type 0} → Outcome (Unit {0}) → A → Store → Outcome A × Store
audited (ok _) a s = (ok a, s)
audited (raise e) a s = (raise e, s)

unfoldable pub approve_discovery :
    Outcome (Unit {0}) → String → String → TenantContext → String → Store → Outcome Approved × Store
approve_discovery audit now fresh context discovery_id s =
    if not (has_permission context.roles "learning:promote")
    then (forbidden, s)
    else (let (updated, rows) =
          Table.approve_discovery context.tenant_id discovery_id context.actor_id now s.rows in
        let s' : Store = record s { rows = rows } in
        if not updated
        then (already_processed discovery_id, s')
        else (let (promoted, s'') = promote now fresh context discovery_id s' in
            audited audit
              (record { discovery_id = discovery_id; approved = true; promoted = promoted }) s''))

unfoldable pub reject_discovery :
    Outcome (Unit {0})
    → String
    → TenantContext
    → String
    → RejectDiscoveryBody
    → Store
    → Outcome Rejected × Store
reject_discovery audit now context discovery_id body s =
    if not (has_permission context.roles "learning:promote")
    then (forbidden, s)
    else (let (updated, rows) =
          Table.reject_discovery context.tenant_id discovery_id context.actor_id body.reason now
            s.rows in
        let s' : Store = record s { rows = rows } in
        if not updated
        then (already_processed discovery_id, s')
        else audited audit (record { discovery_id = discovery_id; rejected = true }) s')

-- The loop of the bulk approval.
unfoldable pub promote_each : String → String → TenantContext → List String → Store → Store
unfolding promote
promote_each now fresh context [] s = s
promote_each now fresh context (id ∷ ids) s =
    promote_each now fresh context ids (promote now fresh context id s).1

unfoldable pub bulk_approve :
    Outcome (Unit {0})
    → String
    → String
    → TenantContext
    → BulkApproveBody
    → Store
    → Outcome BulkDecisionResult × Store
unfolding promote_each
bulk_approve audit now fresh context body s =
    if not (has_permission context.roles "learning:promote")
    then (forbidden, s)
    else if is_empty body.discovery_ids
    then (raise (http 400 "No discovery IDs provided."), s)
    else (let (result, rows) =
          bulk_approve_discoveries context.tenant_id body.discovery_ids context.actor_id now
            s.rows in
        let s' : Store = record s { rows = rows } in
        audited audit result (promote_each now fresh context result.discovery_ids s'))
