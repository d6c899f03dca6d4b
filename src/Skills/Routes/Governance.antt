-- ===== src/Skills/Routes/Governance.antt =====
-- totalrecall/api/routes/skills.py: what a promotion or a deprecation changes.
use totalrecall.Common.{
  Bool, true, false, ◌&&◌, Option, ◌≡◌, refl, Bool-cases, inl, inr, if◌then◌else◌,
}
use totalrecall.Common.Text.{String, ◌==◌}
use totalrecall.Common.Dict
use totalrecall.Common.Dict.{Dict, get-put}
use totalrecall.Common.Outcome.{Outcome, ok, raise, Outcome-cases}
use totalrecall.Auth.{TenantContext, has_permission, publish_skill}
use totalrecall.Skills.{
  SkillStatus, SkillDefinition, SkillRegistry, get, apply_governance_overrides, effective_status,
}
use totalrecall.Skills.Routes.{govern}

abbrev pub is_ok {ℓ} : {A : Type ℓ} → Outcome A → Bool
is_ok (ok a) = true
is_ok (raise e) = false

-- Whether the route changes the registry: the caller may publish skills, and the skill is there.
abbrev pub governs : TenantContext → SkillRegistry → String → Bool
governs context registry skill_id =
    has_permission context.roles publish_skill && is_ok (get registry skill_id)

get_or-put :
    (d : Dict SkillStatus) (k j : String) (v w : SkillStatus)
    → Dict.get_or (Dict.put d k v) j w ≡ (if k == j then v else Dict.get_or d j w)
unfolding Dict.get_or
get_or-put d k j v w = elim (Bool-cases (k == j)) [
  | inl e ↦ rw (get-put d k j v, Dict.get_or, e) refl
  | inr e ↦ rw (get-put d k j v, Dict.get_or, e) refl
]

-- After a promotion or a deprecation, a skill has the new status exactly if the caller may publish
-- skills, the registry has the skill that is named, and it is that skill; every other skill keeps its
-- status, whether the call of the repository returns, raises or is not made.
pub govern-effective_status :
    (status : SkillStatus) (skill_id : String) (context : TenantContext)
    (saved : Option (Outcome (Unit {0}))) (registry : SkillRegistry) (s : SkillDefinition)
    → effective_status (govern status skill_id context saved registry).1 s ≡ (
        if governs context registry skill_id && skill_id == s.skill_id
        then status
        else effective_status registry s)
unfolding govern effective_status apply_governance_overrides
govern-effective_status status skill_id context saved registry s =
    elim (Bool-cases (has_permission context.roles publish_skill)) [
      | inr e ↦ rw (e, govern) refl
      | inl e ↦ elim (Outcome-cases (get registry skill_id)) [
        | inr (x, f) ↦ rw (e, govern, f) refl
        | inl (skill, f) ↦
            rw (e, govern, f)
              (get_or-put registry.governance_overrides skill_id s.skill_id status s.status)
      ]
    ]
