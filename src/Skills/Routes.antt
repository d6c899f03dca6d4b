-- ===== src/Skills/Routes.antt =====
-- totalrecall/api/routes/skills.py: the list of the skills, and their promotion and deprecation. The
-- call of the governance repository, if there is one, is the outcome that the route is given.
pub mod Governance
use totalrecall.Common.{
  ℕ, Bool, true, false, not, Option, none, some, List, map, length, if◌then◌else◌,
}
use totalrecall.Common.Text.{String, ◌++◌}
use totalrecall.Common.Dict
use totalrecall.Common.Outcome.{Outcome, ok, raise, Exception, skill_not_found, http}
use totalrecall.Auth.{TenantContext, has_permission, publish_skill}
use totalrecall.Generation.Models.{language_text, framework_text}
use totalrecall.Skills.{
  SkillStatus, active, deprecated, SkillDefinition, SkillRegistry, get, apply_governance_overrides,
  effective_status, all,
}

unfoldable pub skill_status_text : SkillStatus → String
skill_status_text SkillStatus.draft = "draft"
skill_status_text active = "active"
skill_status_text deprecated = "deprecated"
skill_status_text SkillStatus.disabled = "disabled"

pub record SkillSummary : Type 0 where
  pub skill_id : String
  pub version : String
  pub language : String
  pub framework : String
  pub status : String

pub record SkillListResponse : Type 0 where
  pub skills : List SkillSummary
  pub total : ℕ

pub record GovernanceResponse : Type 0 where
  pub skill_id : String
  pub version : String
  pub status : String
  pub promoted_by : String

abbrev pub summary : SkillRegistry → SkillDefinition → SkillSummary
summary registry s = record {
  skill_id = s.skill_id;
  version = s.version;
  language = language_text s.language;
  framework = framework_text s.framework;
  status = skill_status_text (effective_status registry s);
}

unfoldable pub list_skills : SkillRegistry → SkillListResponse
list_skills registry =
    let summaries = map (summary registry) (all registry) in
    record { skills = summaries; total = length summaries }

abbrev pub is_skill_not_found : Exception → Bool
is_skill_not_found (skill_not_found s) = true
is_skill_not_found _ = false

-- The answer after the repository's call.
abbrev pub saved_answer :
    Option (Outcome (Unit {0})) → GovernanceResponse → Outcome GovernanceResponse
saved_answer (some (raise e)) response = raise e
saved_answer _ response = ok response

-- The routes are the same but for the status.
unfoldable pub govern :
    SkillStatus
    → String
    → TenantContext
    → Option (Outcome (Unit {0}))
    → SkillRegistry
    → Outcome GovernanceResponse × SkillRegistry
govern status skill_id context saved registry =
    if not (has_permission context.roles publish_skill)
    then (raise (http 403 "Insufficient permissions: skill:publish required."), registry)
    else elim (get registry skill_id) [
      | raise e ↦ (
        raise (
            if is_skill_not_found e
            then http 404 ("Skill '" ++ (skill_id ++ "' not found."))
            else e),
        registry,
      )
      | ok skill ↦ (
        saved_answer saved (record {
          skill_id = skill_id;
          version = skill.version;
          status = skill_status_text status;
          promoted_by = context.actor_id;
        }),
        apply_governance_overrides registry
            (Dict.put registry.governance_overrides skill_id status),
      )
    ]

abbrev pub promote_skill :
    String
    → TenantContext
    → Option (Outcome (Unit {0}))
    → SkillRegistry
    → Outcome GovernanceResponse × SkillRegistry
promote_skill = govern active

abbrev pub deprecate_skill :
    String
    → TenantContext
    → Option (Outcome (Unit {0}))
    → SkillRegistry
    → Outcome GovernanceResponse × SkillRegistry
deprecate_skill = govern deprecated
