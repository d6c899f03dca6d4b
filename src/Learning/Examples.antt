-- ===== src/Learning/Examples.antt =====
-- A scan of one file with two patterns, one with a space in front of its name, and a table of two
-- discoveries.
use totalrecall.Common.{
  ℕ, ◌≡◌, refl, true, false, none, some, List, [], ◌∷◌, map, count, not, All, inl, inr,
  if◌then◌else◌,
}
use totalrecall.Common
use Prim.Native.Char.{code}
use totalrecall.Common.Text.{String, truthy, contains}
use totalrecall.Common.Outcome.{ok, raise, http}
use totalrecall.Auth.{TenantContext, has_permission, promote_learning}
use totalrecall.Learning.Routes
use totalrecall.Learning.Routes.{Store}
use totalrecall.Learning.Approvals.{approve_discovery-again}
use totalrecall.Common.Json.{literal}
use totalrecall.Learning.Models.{
  LearningTriggerType, LearningDiscoveryType, LearningDiscoveryStatus, LearningDeltaState,
  LearningScope,
}
use totalrecall.Learning.Run.{ScannedFile, ExtractedPattern, patterns_of, run_learning}
use totalrecall.Learning.Table.{
  DiscoveryRow, discovery_row, row_hashes, approve_discovery, reject_discovery,
  bulk_approve_discoveries,
}
use totalrecall.Learning.Rerun.{IsDistinct, stored_keys, is_stable, IsApart, run_learning-again}
use totalrecall.Learning.Decisions.{
  approved, rejected, decision-once, approve_each, bulk_approve_discoveries-each,
}

abbrev pattern : String → ExtractedPattern
pattern name = record {
  pattern_type = "test_function";
  name = name;
  source_excerpt = name;
  file_path = "a.py";
  start_line = 1;
  language = "python";
}

abbrev extract : String → String → String → List ExtractedPattern
extract content path language = pattern "test_a" ∷ pattern " test_b" ∷ []

abbrev redact : String → String × List String
redact text = (text, [])

-- A digest and a stripping, of the spaces in front, for the examples.
abbrev digest : String → String
digest text = String.◌∷◌ "d" text

abbrev strip : String → String
strip String.[] = ""
strip (String.◌∷◌ c s) =
    let rest = strip s in if Common.◌==◌ (code c) 32 then rest else String.◌∷◌ c s

abbrev fresh : ℕ → String
fresh n = "id"

abbrev scope : LearningScope
scope = record {
  repository = "local";
  branch = "main";
  path = "tests";
  framework = none;
  domain = none;
  route = none;
  tags = [];
}

abbrev files : List ScannedFile
files = record { path = "a.py"; content = "x"; content_hash = "h"; language = "python" } ∷ []

digests : (s : String) → (truthy (digest s) ≡ true) × (strip (digest s) ≡ digest s)
unfolding truthy
digests s = (refl, refl)

keys-IsDistinct : IsDistinct (stored_keys strip (patterns_of extract files))
unfolding contains
keys-IsDistinct = (refl, (refl, tt))

keys-IsApart : All (IsApart strip (patterns_of extract files)) (patterns_of extract files)
unfolding contains
keys-IsApart = (inl refl, (inr refl, tt))

-- One pattern is unchanged, and the one whose name begins with a space is new again.
two_kinds :
    (count (λ p. not (is_stable strip p)) (patterns_of extract files) ≡ 1)
    × (count (is_stable strip) (patterns_of extract files) ≡ 1)
two_kinds = (refl, refl)

run_learning-again_example :
    let run =
      (run_learning redact digest strip extract fresh "r1" "t0" "acme" "shop" scope []
        LearningTriggerType.manual "t0"
        (some files)).run in
    let again =
      run_learning redact digest strip extract fresh "r2" "t1" "acme" "shop" scope
        (row_hashes [] (map (discovery_row run) run.discoveries))
        LearningTriggerType.manual
        "t1"
        (some files) in
    (again.discovered_count ≡ count (λ p. not (is_stable strip p)) (patterns_of extract files))
    × (again.changed_count ≡ 0)
    × (again.unchanged_count ≡ count (is_stable strip) (patterns_of extract files))
run_learning-again_example =
    run_learning-again redact digest strip extract fresh fresh "r1" "r2" "acme" "shop" scope []
      LearningTriggerType.manual "t0" "t1" files digests keys-IsDistinct keys-IsApart

abbrev row : String → DiscoveryRow
row id = record {
  id = id;
  run_id = "r";
  tenant_id = "acme";
  application_id = "shop";
  discovery_type = LearningDiscoveryType.dynamic_memory;
  status = LearningDiscoveryStatus.discovered;
  delta_state = LearningDeltaState.new;
  summary = "s";
  confidence = literal "1.0";
  source = record {
    type = "file_scan";
    reference = "a.py";
    file_path = some "a.py";
    symbol_name = some "f";
    commit_id = none;
    scan_id = none;
  };
  proposed_tags = [];
  content_hash = some "h";
  warnings = [];
  approved_by = none;
  approved_at = none;
  rejection_reason = none;
}

abbrev rows : List DiscoveryRow
rows = row "d1" ∷ row "d2" ∷ []

approves-once : (approve_discovery "acme" "d1" "ann" "t0" rows).0 ≡ true
unfolding approve_discovery contains
approves-once = refl

decision-once_example :
    (approve_discovery "acme" "d1" "bob" "t1"
        (approved "acme" "d1" "ann" "bob" "t0" "t1" none none rows)
      ≡ (false, approved "acme" "d1" "ann" "bob" "t0" "t1" none none rows))
    × (reject_discovery "acme" "d1" "bob" none "t1"
          (approved "acme" "d1" "ann" "bob" "t0" "t1" none none rows)
        ≡ (false, approved "acme" "d1" "ann" "bob" "t0" "t1" none none rows))
    × (approve_discovery "acme" "d1" "bob" "t1"
          (rejected "acme" "d1" "ann" "bob" "t0" "t1" none none rows)
        ≡ (false, rejected "acme" "d1" "ann" "bob" "t0" "t1" none none rows))
    × (reject_discovery "acme" "d1" "bob" none "t1"
          (rejected "acme" "d1" "ann" "bob" "t0" "t1" none none rows)
        ≡ (false, rejected "acme" "d1" "ann" "bob" "t0" "t1" none none rows))
decision-once_example = decision-once "acme" "d1" "ann" "bob" "t0" "t1" none none rows

bulk_approve_discoveries-each_example :
    (bulk_approve_discoveries "acme" ("d1" ∷ "d9" ∷ "d1" ∷ []) "ann" "t0" rows).1
    ≡ approve_each "acme" ("d1" ∷ "d9" ∷ "d1" ∷ []) "ann" "t0" rows
bulk_approve_discoveries-each_example =
    bulk_approve_discoveries-each "acme" ("d1" ∷ "d9" ∷ "d1" ∷ []) "ann" "t0" rows

abbrev maintainer : String → TenantContext
maintainer actor = record {
  tenant_id = "acme";
  actor_id = actor;
  roles = "maintainer" ∷ [];
  permissions = [];
}

abbrev store : Store
store = record { rows = rows; entries = [] }

may_promote : has_permission ("maintainer" ∷ []) promote_learning ≡ true
unfolding has_permission
may_promote = refl

approve_discovery-again_example :
    let after = (Routes.approve_discovery (ok tt) "t0" "f0" (maintainer "ann") "d1" store).1 in
    (Routes.approve_discovery (ok tt) "t1" "f1" (maintainer "bob") "d1" after
      ≡ (raise (http 404 "Discovery 'd1' not found or already processed."), after))
    × (Routes.reject_discovery (ok tt) "t1" (maintainer "bob") "d1" (record { reason = none }) after
        ≡ (raise (http 404 "Discovery 'd1' not found or already processed."), after))
approve_discovery-again_example =
    approve_discovery-again (ok tt) (ok tt) "t0" "t1" "f0" "f1" (maintainer "ann")
      (maintainer "bob") "d1" (record { reason = none }) store refl may_promote may_promote
