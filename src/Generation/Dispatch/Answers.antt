-- ===== src/Generation/Dispatch/Answers.antt =====
-- totalrecall/generation/orchestrator.py: an answer keeps a property that sending redacted messages
-- keeps.
use totalrecall.Common.{
  ◌&&◌, Option, List, [], ◌∷◌, refl, inl, inr, arith, Bool-cases, Option-cases,
}
use totalrecall.Common.Outcome.{Outcome-cases}
use totalrecall.Generation.Models.{
  GenerationRequest, GeneratedArtifact, ReformulatedIntent, Language,
}
use totalrecall.Skills.{SkillDefinition, select}
use totalrecall.Context.Models.{ContextPlan}
use totalrecall.Providers.Models.{ProviderMessage, ProviderResponse}
use totalrecall.Providers.Normalizer
use totalrecall.Prompts.{build_repair_messages}
use totalrecall.Prompts.Redaction.{redact_messages}
use totalrecall.Validation.{validate, check_playwright_worker, check_python_syntax, in_language}
use totalrecall.TestGen.Packs
use totalrecall.Generation.Orchestrator.{
  Libraries, GenerationOrchestrator, Identifiers, Produced, reformulated, make_plan, build_messages,
  ask, guard_output, refined, validated, produce, repair, produce_repaired, is_some,
}
use totalrecall.Generation.Pipeline.{assemble, finish, prepared, dispatch, generate}
use totalrecall.Generation.Dispatch.{Keeps}
use totalrecall.Generation.Dispatch.Calls.{
  ask-keeps, reformulated-keeps, make_plan-keeps, build_messages-keeps, refined-keeps,
}

module _ {W : Type 0} (lib : Libraries) (o : GenerationOrchestrator W) (request : GenerationRequest)
    (Inv : W → Type 0) (keeps : Keeps W lib o request Inv) where
  check_worker-keeps :
      (artifacts : List GeneratedArtifact) (skill : Option SkillDefinition) (w : W)
      → Inv w
      → Inv
          (check_playwright_worker lib.set_order lib.has_class lib.parse_python o.worker artifacts
            skill w).1
  unfolding check_playwright_worker
  check_worker-keeps artifacts skill w inv = elim (Option-cases o.worker) [
    | inl e ↦ ground (arith, e, inv)
    | inr (f, e) ↦ elim (Option-cases skill) [
      | inl k ↦ ground (arith, e, k, inv)
      | inr (s, k) ↦
          ground
            (arith, e, k, inv, keeps.worker f (in_language Language.typescript artifacts) w e inv)
    ]
  ]

  validate-keeps :
      (artifacts : List GeneratedArtifact) (skill : Option SkillDefinition) (w : W)
      → Inv w
      → Inv (validate lib.set_order lib.has_class lib.parse_python o.worker artifacts skill w).1
  unfolding validate
  validate-keeps [] skill w inv = inv
  validate-keeps (a ∷ artifacts) skill w inv =
      let kept = check_worker-keeps (a ∷ artifacts) skill w inv in
      elim (Outcome-cases
        (check_python_syntax lib.set_order lib.has_class lib.parse_python (a ∷ artifacts))) [
          | inl (ds, e) ↦ rw (e, validate) kept
          | inr (x, e) ↦ rw (e, validate) inv
        ]

  validated-keeps :
      (artifacts : List GeneratedArtifact) (w : W)
      → Inv w
      → Inv (validated lib o request artifacts w).1
  unfolding validated
  validated-keeps artifacts w inv =
      let skill = select o.skills request.target.language request.target.framework in
      ground (arith, inv, validate-keeps artifacts skill w inv)

  produce-keeps :
      (response : ProviderResponse) (w : W) → Inv w → Inv (produce lib o request response w).1
  unfolding produce
  produce-keeps response w inv =
      elim (Outcome-cases
        (Normalizer.normalize lib.loads lib.py_str lib.nat_text lib.trim response)) [
          | inr (x, e) ↦ ground (arith, e, inv)
          | inl (n, e) ↦ elim (Outcome-cases (validated lib o request n.0 w).0) [
            | inl (v, f) ↦ ground (arith, e, f, validated-keeps n.0 w inv)
            | inr (x, f) ↦ ground (arith, e, f, validated-keeps n.0 w inv)
          ]
        ]

  repair-keeps :
      (ids : Identifiers) (raw : List ProviderMessage) (response : ProviderResponse)
      (original : Produced) (w : W)
      → Inv w
      → Inv (repair lib o ids request (redact_messages lib.compile raw).0 response original w).1
  unfolding repair
  repair-keeps ids raw response original w inv =
      let diagnostics = original.validation.diagnostics in
      let messages =
        build_repair_messages (redact_messages lib.compile raw).0 response.raw_text diagnostics in
      let asked = ask lib o ids request messages w in
      let kept =
        ask-keeps lib o request Inv keeps ids messages w
          (inr (raw, response.raw_text, diagnostics, refl)) inv in
      elim (Outcome-cases asked.0) [
        | inr (x, e) ↦ ground (arith, e, kept)
        | inl (r, e) ↦
            let kept' = produce-keeps r asked.1 kept in
            elim (Outcome-cases (produce lib o request r asked.1).0) [
              | inl (p, f) ↦ ground (arith, e, f, kept')
              | inr (x, f) ↦ ground (arith, e, f, kept')
            ]
      ]

  produce_repaired-keeps :
      (ids : Identifiers) (raw : List ProviderMessage) (response : ProviderResponse) (w : W)
      → Inv w
      → Inv (produce_repaired lib o ids request (redact_messages lib.compile raw).0 response w).1
  unfolding produce_repaired
  produce_repaired-keeps ids raw response w inv =
      let kept = produce-keeps response w inv in
      elim (Outcome-cases (produce lib o request response w).0) [
        | inr (x, e) ↦ ground (arith, e, kept)
        | inl (original, e) ↦ ground (
          arith,
          e,
          kept,
          repair-keeps ids raw response original (produce lib o request response w).1 kept,
        )
      ]

  assemble-keeps :
      (ids : Identifiers) (intent : Option ReformulatedIntent) (plan : ContextPlan)
      (raw : List ProviderMessage) (response : ProviderResponse) (w : W)
      → Inv w
      → Inv
          (assemble lib o ids request intent plan (redact_messages lib.compile raw).0 response w).1
  unfolding assemble
  assemble-keeps ids intent plan raw response w inv =
      let kept = refined-keeps lib o request Inv keeps ids response w inv in
      let (response', w') = refined lib o ids response w in
      let packed =
        Packs.normalize lib.strip lib.splitlines lib.loads lib.validate_pack lib.field_order
          response'.raw_text request.jira_key in
      let messages = (redact_messages lib.compile raw).0 in
      elim (Bool-cases (is_some intent && o.testgen_normalizer)) [
        | inl t ↦ elim (Outcome-cases packed) [
          | inl (p, e) ↦ ground (arith, t, e, kept)
          | inr (x, e) ↦ ground (arith, t, e, kept)
        ]
        | inr t ↦
            let kept' = produce_repaired-keeps ids raw response' w' kept in
            elim (Outcome-cases (produce_repaired lib o ids request messages response' w').0) [
              | inl (p, e) ↦ ground (arith, t, e, kept')
              | inr (x, e) ↦ ground (arith, t, e, kept')
            ]
      ]

  finish-keeps :
      (ids : Identifiers) (intent : Option ReformulatedIntent) (plan : ContextPlan)
      (raw : List ProviderMessage) (response : ProviderResponse) (w : W)
      → Inv w
      → Inv (finish lib o ids request intent plan (redact_messages lib.compile raw).0 response w).1
  unfolding finish
  finish-keeps ids intent plan raw response w inv =
      elim (Outcome-cases (guard_output lib o response)) [
        | inr (x, e) ↦ ground (arith, e, inv)
        | inl (g, e) ↦ ground (arith, e, inv, assemble-keeps ids intent plan raw response w inv)
      ]

  dispatch-keeps :
      (ids : Identifiers) (intent : Option ReformulatedIntent) (w : W)
      → Inv w
      → Inv (dispatch lib o ids request intent w).1
  unfolding dispatch prepared
  dispatch-keeps ids intent w inv =
      let (plan, w1) = make_plan lib o ids request w in
      let (raw, w2) = build_messages lib o request plan intent w1 in
      let messages = (redact_messages lib.compile raw).0 in
      let built =
        build_messages-keeps lib o request Inv keeps plan intent w1
          (make_plan-keeps lib o request Inv keeps ids w inv) in
      let asked = ask lib o ids request messages w2 in
      let kept = ask-keeps lib o request Inv keeps ids messages w2 (inl (raw, refl)) built in
      elim (Outcome-cases asked.0) [
        | inr (x, e) ↦ ground (arith, e, kept)
        | inl (r, e) ↦ ground (arith, e, finish-keeps ids intent plan raw r asked.1 kept)
      ]

  -- If every adapter keeps a property of the state, and every registered provider keeps it when it is
  -- sent messages in the name of the request's tenant whose texts of the user are redacted, or such
  -- messages with a turn for a repair after them, then the answer to the request keeps it.
  pub generate-keeps : (ids : Identifiers) (w : W) → Inv w → Inv (generate lib o ids request w).1
  unfolding generate
  generate-keeps ids w inv =
      let reformed = reformulated lib o request w in
      let kept = reformulated-keeps lib o request Inv keeps w inv in
      elim (Outcome-cases reformed.0) [
        | inr (x, e) ↦ ground (arith, e, kept)
        | inl (intent, e) ↦ ground (arith, e, kept, dispatch-keeps ids intent reformed.1 kept)
      ]
