-- ===== src/Learning/Approvals.antt =====
-- What the routes of approval and rejection do.
use totalrecall.Common.{true, false, none, ◌≡◌, refl, arith, Bool-cases, inl, inr}
use totalrecall.Common.Text.{String, ◌++◌}
use totalrecall.Common.Outcome.{Outcome, ok, raise, http}
use totalrecall.Auth.{TenantContext, has_permission, promote_learning}
use totalrecall.Learning.Table
use totalrecall.Learning.Decisions.{decision-once}
use totalrecall.Learning.Routes.{
  Store, RejectDiscoveryBody, promote, audited, approve_discovery, reject_discovery,
}

promote-rows :
    (now fresh : String) (context : TenantContext) (id : String) (s : Store)
    → (promote now fresh context id s).1.rows ≡ s.rows
unfolding promote
promote-rows now fresh context id s = ground arith

audited-store :
    {A : Type 0} (audit : Outcome (Unit {0})) (a : A) (s : Store) → (audited audit a s).1 ≡ s
audited-store (ok u) a s = refl
audited-store (raise e) a s = refl

-- With the permission, the table is the one that the approval of the discovery leaves, whatever the
-- promotion and the audit record do.
approve_discovery-rows :
    (audit : Outcome (Unit {0})) (now fresh : String) (context : TenantContext) (id : String)
    (s : Store)
    → has_permission context.roles promote_learning ≡ true
    → (approve_discovery audit now fresh context id s).1.rows
      ≡ (Table.approve_discovery context.tenant_id id context.actor_id now s.rows).1
unfolding approve_discovery
approve_discovery-rows audit now fresh context id s permitted =
    let updated = Table.approve_discovery context.tenant_id id context.actor_id now s.rows in
    elim (Bool-cases updated.0) [
      | inl found ↦
          rw (permitted, found, audited-store)
            (promote-rows now fresh context id (record s { rows = updated.1 }))
      | inr nothing ↦ rw (permitted, nothing)
    ]

-- A store in which the table has nothing to decide.
approve_nothing :
    (audit : Outcome (Unit {0})) (now fresh : String) (context : TenantContext) (id : String)
    (s : Store)
    → has_permission context.roles promote_learning ≡ true
    → Table.approve_discovery context.tenant_id id context.actor_id now s.rows ≡ (false, s.rows)
    → approve_discovery audit now fresh context id s
      ≡ (raise (http 404 ("Discovery '" ++ (id ++ "' not found or already processed."))), s)
unfolding approve_discovery
approve_nothing audit now fresh context id s permitted nothing = rw (permitted, nothing)

reject_nothing :
    (audit : Outcome (Unit {0})) (now : String) (context : TenantContext) (id : String)
    (body : RejectDiscoveryBody) (s : Store)
    → has_permission context.roles promote_learning ≡ true
    → Table.reject_discovery context.tenant_id id context.actor_id body.reason now s.rows
      ≡ (false, s.rows)
    → reject_discovery audit now context id body s
      ≡ (raise (http 404 ("Discovery '" ++ (id ++ "' not found or already processed."))), s)
unfolding reject_discovery
reject_nothing audit now context id body s permitted nothing = rw (permitted, nothing)

module _ (audit audit' : Outcome (Unit {0})) (now now' fresh fresh' : String)
    (context context' : TenantContext) (id : String) (body : RejectDiscoveryBody) (s : Store)
    (same : context'.tenant_id ≡ context.tenant_id)
    (permitted : has_permission context.roles promote_learning ≡ true)
    (permitted' : has_permission context'.roles promote_learning ≡ true) where
  abbrev pub after : Store
  after = (approve_discovery audit now fresh context id s).1

  decided :
      (Table.approve_discovery context'.tenant_id id context'.actor_id now' after.rows
        ≡ (false, after.rows))
      × (Table.reject_discovery context'.tenant_id id context'.actor_id body.reason now' after.rows
          ≡ (false, after.rows))
  decided =
      let rows = approve_discovery-rows audit now fresh context id s permitted in
      let once =
        decision-once context.tenant_id id context.actor_id context'.actor_id now now' none
          body.reason s.rows in
      rw (rows, same) (once.0, once.1)

  -- After a permitted approval of a discovery, whether it found the discovery open or not and whether
  -- or not its audit record raised, every further permitted approval or rejection of it for the same
  -- tenant answers 404 and changes neither the table nor the catalogue.
  pub approve_discovery-again :
      (approve_discovery audit' now' fresh' context' id after
        ≡ (raise (http 404 ("Discovery '" ++ (id ++ "' not found or already processed."))), after))
      × (reject_discovery audit' now' context' id body after ≡ (
        raise (http 404 ("Discovery '" ++ (id ++ "' not found or already processed."))),
        after,
      ))
  approve_discovery-again = (
    approve_nothing audit' now' fresh' context' id after permitted' decided.0,
    reject_nothing audit' now' context' id body after permitted' decided.1,
  )
