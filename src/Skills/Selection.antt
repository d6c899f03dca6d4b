-- ===== src/Skills/Selection.antt =====
-- Which skill is selected, and what the registry holds.
use totalrecall.Common.{Bool, ◌&&◌, Option, none, some, List, [], ◌∷◌, ◌≡◌, refl, arith, filter}
use totalrecall.Common.Dict
use totalrecall.Skills.{
  SkillDefinition, SkillRegistry, is_active, effective_status, first_skill, select, all_active,
}
use totalrecall.Generation.Models.{Language, Framework, language_eq, framework_eq}

-- The first element of a list.
abbrev pub first : List SkillDefinition → Option SkillDefinition
first [] = none
first (s ∷ ss) = some s

first_skill-filter :
    (p q : SkillDefinition → Bool) (skills : List SkillDefinition)
    → first_skill (λ s. p s && q s) skills ≡ first (filter p (filter q skills))
unfolding first_skill
first_skill-filter p q [] = refl
first_skill-filter p q (s ∷ skills) = ground (arith, first_skill-filter p q skills)

-- `select` is the first of the skills of `all_active`, in the order of loading, that is for the language and the
-- framework, under the overrides.
pub select-all_active :
    (r : SkillRegistry) (language : Language) (framework : Framework)
    → select r language framework
      ≡ first (
          filter
            (λ s. language_eq s.language language && framework_eq s.framework framework)
            (all_active r))
unfolding select all_active
select-all_active r language framework =
    first_skill-filter (λ s. language_eq s.language language && framework_eq s.framework framework)
      (λ s. is_active (effective_status r s)) (Dict.values r.skills)
