-- ===== src/Skills/Examples.antt =====
-- Two skills for one framework, of which an override disables the first.
use totalrecall.Common.{◌&&◌, none, some, [], ◌∷◌, ◌≡◌, refl, filter, if◌then◌else◌}
use totalrecall.Common.Text.{String, ◌==◌}
use totalrecall.Common.Dict
use totalrecall.Generation.Models.{
  Language, Framework, AutomationPattern, language_eq, framework_eq,
}
use totalrecall.Skills.{
  SkillStatus, SkillDefinition, SkillRegistry, effective_status, select, all_active,
}
use totalrecall.Auth.{TenantContext}
use totalrecall.Skills.Routes.{govern}
use totalrecall.Skills.Routes.Governance.{governs, govern-effective_status}
use totalrecall.Skills.Selection.{first, select-all_active}

abbrev skill : String → SkillDefinition
skill id = record {
  skill_id = id;
  version = "1.0.0";
  language = Language.python;
  framework = Framework.playwright;
  pattern = AutomationPattern.pom;
  supported_locator_strategies = [];
  output_files = [];
  generation_rules = [];
  validators = [];
  status = SkillStatus.active;
  owner = none;
  description = none;
}

abbrev registry : SkillRegistry
registry = record {
  skills_dir = "skills";
  skills = ("s1", skill "s1") ∷ ("s2", skill "s2") ∷ [];
  governance_overrides = ("s1", SkillStatus.disabled) ∷ [];
}

registry-select : select registry Language.python Framework.playwright ≡ some (skill "s2")
unfolding select Dict.get Dict.get_or language_eq framework_eq effective_status
registry-select = refl

select-all_active_example :
    select registry Language.python Framework.playwright
    ≡ first (
        filter
          (λ s.
            language_eq s.language Language.python && framework_eq s.framework Framework.playwright)
          (all_active registry))
select-all_active_example = select-all_active registry Language.python Framework.playwright

abbrev publisher : TenantContext
publisher = record { tenant_id = "acme"; actor_id = "ann"; roles = "admin" ∷ []; permissions = [] }

govern-effective_status_example :
    effective_status (govern SkillStatus.active "s1" publisher none registry).1 (skill "s1") ≡ (
      if governs publisher registry "s1" && "s1" == "s1"
      then SkillStatus.active
      else effective_status registry (skill "s1"))
govern-effective_status_example =
    govern-effective_status SkillStatus.active "s1" publisher none registry (skill "s1")
