-- ===== src/Skills.antt =====
-- totalrecall/skills: the definitions of the automation skills and their registry. Reading a file
-- and checking it against the schema is outside; `load` takes, for each file in the order of the
-- names, the definition that it holds or the text of the failure.
pub mod Selection
pub mod Routes
mod Examples
use totalrecall.Common.{
  ℕ, Bool, true, false, ◌&&◌, Option, none, some, List, [], ◌∷◌, length, filter, if◌then◌else◌,
}
use totalrecall.Common.Text.{String, ◌++◌}
use totalrecall.Common.Dict
use totalrecall.Common.Dict.{Dict}
use totalrecall.Common.Outcome.{Outcome, ok, raise, skill_not_found, other, ◌>>=◌}
use totalrecall.Generation.Models.{
  Language, Framework, AutomationPattern, LocatorStrategy, ArtifactType, language_eq, framework_eq,
}

pub data SkillStatus : Type 0 where
  draft active deprecated disabled : SkillStatus

pub data SkillValidatorType : Type 0 where
  structure syntax policy dry_run : SkillValidatorType

pub record SkillOutputFile : Type 0 where
  pub artifact_type : ArtifactType
  pub path_template : String
  pub template_ref : String

pub record SkillValidator : Type 0 where
  pub type : SkillValidatorType
  pub command : Option String
  pub rules : List String

pub record SkillDefinition : Type 0 where
  pub skill_id : String
  pub version : String
  pub language : Language
  pub framework : Framework
  pub pattern : AutomationPattern
  pub supported_locator_strategies : List LocatorStrategy
  pub output_files : List SkillOutputFile
  pub generation_rules : List String
  pub validators : List SkillValidator
  pub status : SkillStatus
  pub owner : Option String
  pub description : Option String

abbrev pub is_active : SkillStatus → Bool
is_active active = true
is_active _ = false

pub record SkillRegistry : Type 0 where
  pub skills_dir : String
  pub skills : Dict SkillDefinition
  pub governance_overrides : Dict SkillStatus

-- A file of the directory: its name, and the definition or the text of the failure.
pub record SkillFile : Type 0 where
  pub name : String
  pub content : Outcome SkillDefinition
  pub failure : String

abbrev pub load_error : {A : Type 0} → String → Outcome A
load_error text = raise (other "SkillLoadError" text)

-- One file of the loop.
unfoldable pub load_skill : SkillFile → Dict SkillDefinition → Outcome (Dict SkillDefinition)
unfolding Dict.has
load_skill file loaded = elim file.content [
  | raise e ↦ load_error ("Failed to load skill from " ++ (file.name ++ (": " ++ file.failure)))
  | ok skill ↦
      if Dict.has loaded skill.skill_id
      then load_error ("Duplicate skill_id '" ++ (skill.skill_id ++ ("' found in " ++ file.name)))
      else ok (Dict.put loaded skill.skill_id skill)
]

unfoldable pub load_skills : List SkillFile → Dict SkillDefinition → Outcome (Dict SkillDefinition)
load_skills [] loaded = ok loaded
load_skills (file ∷ files) loaded = do loaded' ← load_skill file loaded; load_skills files loaded'

-- `none` is a directory that does not exist. A failure leaves the registry as it was.
unfoldable pub load : Option (List SkillFile) → SkillRegistry → Outcome SkillRegistry
load none r = load_error ("Skills directory does not exist: " ++ r.skills_dir)
load (some files) r = do loaded ← load_skills files []; ok (record r { skills = loaded })

unfoldable pub get : SkillRegistry → String → Outcome SkillDefinition
get r skill_id = elim (Dict.get r.skills skill_id) [
  | none ↦ raise (skill_not_found ("Skill '" ++ (skill_id ++ "' not found in registry")))
  | some skill ↦ ok skill
]

unfoldable pub apply_governance_overrides : SkillRegistry → Dict SkillStatus → SkillRegistry
apply_governance_overrides r overrides = record r { governance_overrides = overrides }

unfoldable pub effective_status : SkillRegistry → SkillDefinition → SkillStatus
effective_status r skill = Dict.get_or r.governance_overrides skill.skill_id skill.status

abbrev pub selects : SkillRegistry → Language → Framework → SkillDefinition → Bool
selects r language framework skill =
    language_eq skill.language language
    && framework_eq skill.framework framework
    && is_active (effective_status r skill)

-- The loop of `select`.
unfoldable pub first_skill :
    (SkillDefinition → Bool) → List SkillDefinition → Option SkillDefinition
first_skill p [] = none
first_skill p (skill ∷ skills) = if p skill then some skill else first_skill p skills

unfoldable pub select : SkillRegistry → Language → Framework → Option SkillDefinition
unfolding first_skill
select r language framework = first_skill (selects r language framework) (Dict.values r.skills)

unfoldable pub all_active : SkillRegistry → List SkillDefinition
all_active r = filter (λ s. is_active (effective_status r s)) (Dict.values r.skills)

unfoldable pub all : SkillRegistry → List SkillDefinition
all r = Dict.values r.skills

unfoldable pub loaded_count : SkillRegistry → ℕ
loaded_count r = length r.skills
