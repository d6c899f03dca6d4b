-- ===== src/Generation/Statuses.antt =====
-- totalrecall/generation/orchestrator.py: what the status of a result says.
use totalrecall.Common.{
  Bool, true, false, ◌&&◌, ◌||◌, not, Option, none, some, List, map, is_empty, ◌≡◌, refl, arith,
  Bool-cases, inl, inr, sym, subst,
}
use totalrecall.Common.Text.{String}
use totalrecall.Common.Text
use totalrecall.Common.Json.{Json}
use totalrecall.Common.Json
use totalrecall.Common.Outcome.{Outcome, ok, raise, Exception, Outcome-cases}
use totalrecall.Common.Run.{Run, pure, follow}
use totalrecall.Generation.Models.{
  GenerationStatus, GenerationRequest, GenerationResult, ReformulatedIntent, is_failed,
}
use totalrecall.Context.Models.{ContextPlan}
use totalrecall.Providers.Models.{ProviderMessage, ProviderResponse}
use totalrecall.Providers.{is_not_found}
use totalrecall.Providers.Normalizer.{is_decode_error}
use totalrecall.TestGen.Guardrails.{GuardrailViolation}
use totalrecall.TestGen.Packs
use totalrecall.Generation.Orchestrator.{
  Libraries, GenerationOrchestrator, Identifiers, Produced, failed_result, blocked_result, is_some,
  code_status, pack_status, reformulated, guard_input, ask, guard_output, refined, produce_repaired,
}
use totalrecall.Generation.Pipeline.{
  unavailable, testgen_result, code_result, assemble, finish, prepared, dispatch, generate,
}

-- A result that failed has nothing to show; one that completed has artifacts, or a pack, or no error
-- and no failed validation. No other status is given.
abbrev pub is_coherent : GenerationResult → Bool
is_coherent r = elim r.status [
  | GenerationStatus.failed ↦ is_empty r.artifacts && not (is_some r.test_case_pack)
  | GenerationStatus.completed ↦
      not (is_empty r.artifacts)
      || is_some r.test_case_pack
      || is_empty r.errors && not (is_failed r.validation.status)
  | _ ↦ false
]

-- A call's result is coherent, if it gives one.
abbrev pub GivesCoherent : Outcome GenerationResult → Type 0
GivesCoherent (ok r) = is_coherent r ≡ true
GivesCoherent (raise e) = Unit

-- A pack comes exactly without errors.
abbrev pub GivesPack : Outcome Packs.PackResult → Type 0
GivesPack (ok r) = is_some r.0 ≡ is_empty r.1
GivesPack (raise e) = Unit

module _ {W : Type 0} (lib : Libraries) (o : GenerationOrchestrator W) where
  validate_pack-pack :
      (payload : Json)
      → GivesPack (
          Packs.validate_pack lib.strip lib.splitlines lib.loads lib.validate_pack lib.field_order
            payload)
  unfolding Packs.validate_pack
  validate_pack-pack payload = elim (Outcome-cases (lib.validate_pack payload)) [
    | inl (p, e) ↦ ground (arith, e)
    | inr (x, e) ↦ ground (arith, e)
  ]

  normalize_object-pack :
      (fields : Json.Fields) (key : Option String)
      → GivesPack (
          Packs.normalize_object lib.strip lib.splitlines lib.loads lib.validate_pack
            lib.field_order fields key)
  unfolding Packs.normalize_object
  normalize_object-pack fields key =
      let missing =
        Packs.missing_required lib.strip lib.splitlines lib.loads lib.validate_pack lib.field_order
          fields in
      let errors = map (λ f. Packs.pack_error (Text.◌++◌ "Missing required field: " f)) missing in
      elim (Bool-cases (is_empty errors)) [
        | inl e ↦ rw (e, Packs.normalize_object) (validate_pack-pack _)
        | inr e ↦ rw (e, Packs.normalize_object) (sym e)
      ]

  normalize_json-pack :
      (payload : Json) (key : Option String)
      → GivesPack (
          Packs.normalize_json lib.strip lib.splitlines lib.loads lib.validate_pack lib.field_order
            payload key)
  unfolding Packs.normalize_json
  normalize_json-pack (Json.obj fields) key = normalize_object-pack fields key
  normalize_json-pack Json.null key = refl
  normalize_json-pack (Json.bool b) key = refl
  normalize_json-pack (Json.int z) key = refl
  normalize_json-pack (Json.float f) key = refl
  normalize_json-pack (Json.str s) key = refl
  normalize_json-pack (Json.arr xs) key = refl

  normalize-pack :
      (raw_text : String) (key : Option String)
      → GivesPack (
          Packs.normalize lib.strip lib.splitlines lib.loads lib.validate_pack lib.field_order
            raw_text key)
  unfolding Packs.normalize
  normalize-pack raw_text key =
      let text =
        Packs.strip_fences lib.strip lib.splitlines lib.loads lib.validate_pack lib.field_order
          raw_text in
      elim (Outcome-cases (lib.loads text)) [
        | inl (payload, e) ↦ rw (e, Packs.normalize) (normalize_json-pack payload key)
        | inr (x, e) ↦ elim (Bool-cases (is_decode_error x)) [
          | inl d ↦ rw (e, Packs.normalize, d) refl
          | inr d ↦ rw (e, Packs.normalize, d) tt
        ]
      ]

  testgen_result-coherent :
      (ids : Identifiers) (request : GenerationRequest) (plan : ContextPlan)
      (pack : Packs.PackResult)
      → GivesPack (ok pack)
      → is_coherent (testgen_result lib o ids request plan pack) ≡ true
  unfolding testgen_result pack_status
  testgen_result-coherent ids request plan (none, errors) agree = ground (arith, agree)
  testgen_result-coherent ids request plan (some p, errors) agree = ground (arith, agree)

  code_result-coherent :
      (ids : Identifiers) (plan : ContextPlan) (produced : Produced)
      → is_coherent (code_result lib o ids plan produced) ≡ true
  unfolding code_result code_status
  code_result-coherent ids plan produced = ground arith

  -- A call after which every result is coherent.
  follow-coherent :
      (f : Produced → Run W GenerationResult)
      → ((p : Produced) (w : W) → GivesCoherent (f p w).0)
      → (m : Outcome Produced × W) → GivesCoherent (follow f m).0
  follow-coherent f coherent (ok p, w) = coherent p w
  follow-coherent f coherent (raise e, w) = tt

  assemble-coherent :
      (ids : Identifiers) (request : GenerationRequest) (intent : Option ReformulatedIntent)
      (plan : ContextPlan) (messages : List ProviderMessage) (response : ProviderResponse) (w : W)
      → GivesCoherent (assemble lib o ids request intent plan messages response w).0
  unfolding assemble
  assemble-coherent ids request intent plan messages response w =
      let (response', w') = refined lib o ids response w in
      let packed =
        Packs.normalize lib.strip lib.splitlines lib.loads lib.validate_pack lib.field_order
          response'.raw_text request.jira_key in
      elim (Bool-cases (is_some intent && o.testgen_normalizer)) [
        | inl t ↦ elim (Outcome-cases packed) [
          | inl (p, e) ↦
              let agree = subst GivesPack e (normalize-pack response'.raw_text request.jira_key) in
              rw (t, assemble, e) (testgen_result-coherent ids request plan p agree)
          | inr (x, e) ↦ rw (t, assemble, e) tt
        ]
        | inr t ↦
            rw (t, assemble)
              (follow-coherent (λ p. pure (code_result lib o ids plan p))
                (λ p w. code_result-coherent ids plan p)
                (produce_repaired lib o ids request messages response' w'))
      ]

  blocked_result-coherent :
      (id : String) (violations : List GuardrailViolation)
      → is_coherent (blocked_result id violations) ≡ true
  unfolding blocked_result failed_result
  blocked_result-coherent id violations = refl

  finish-coherent :
      (ids : Identifiers) (request : GenerationRequest) (intent : Option ReformulatedIntent)
      (plan : ContextPlan) (messages : List ProviderMessage) (response : ProviderResponse) (w : W)
      → GivesCoherent (finish lib o ids request intent plan messages response w).0
  unfolding finish
  finish-coherent ids request intent plan messages response w =
      elim (Outcome-cases (guard_output lib o response)) [
        | inr (x, e) ↦ rw (e, finish) tt
        | inl (g, e) ↦ elim (Bool-cases g.passed) [
          | inl p ↦
              rw (e, finish, p) (assemble-coherent ids request intent plan messages response w)
          | inr p ↦ rw (e, finish, p) (blocked_result-coherent ids.request_id g.violations)
        ]
      ]

  unavailable-coherent : (ids : Identifiers) (e : Exception) → GivesCoherent (unavailable ids e)
  unfolding failed_result
  unavailable-coherent ids x = elim (Bool-cases (is_not_found x)) [
    | inl e ↦ rw e refl
    | inr e ↦ rw e tt
  ]

  -- Whatever the pipeline's result, if it gives one: its status is FAILED or COMPLETED, a FAILED one
  -- has no artifacts and no pack of test cases, and a COMPLETED one has artifacts, or a pack, or
  -- neither an error nor a failed validation.
  pub generate-coherent :
      (ids : Identifiers) (request : GenerationRequest) (w : W)
      → GivesCoherent (generate lib o ids request w).0
  unfolding generate dispatch
  generate-coherent ids request w =
      let reformed = reformulated lib o request w in
      elim (Outcome-cases reformed.0) [
        | inr (x, e) ↦ rw (e, generate) tt
        | inl (intent, e) ↦ elim (Bool-cases (guard_input lib o request intent).passed) [
          | inr p ↦
              rw (e, generate, p)
                (blocked_result-coherent ids.request_id
                  (guard_input lib o request intent).violations)
          | inl p ↦
              let (ready, w1) = prepared lib o ids request intent reformed.1 in
              let asked = ask lib o ids request ready.1 w1 in
              elim (Outcome-cases asked.0) [
                | inr (x, f) ↦ rw (e, generate, p, dispatch, f) (unavailable-coherent ids x)
                | inl (r, f) ↦
                    rw (e, generate, p, dispatch, f)
                      (finish-coherent ids request intent ready.0 ready.1 r asked.1)
              ]
        ]
      ]
