-- ===== src/Generation/Pipeline.antt =====
-- totalrecall/generation/orchestrator.py: `GenerationOrchestrator.generate`, from its steps.
use totalrecall.Common.{◌&&◌, Option, none, List, [], ◌∷◌, if◌then◌else◌}
use totalrecall.Common.Outcome.{Outcome, ok, raise, Exception, exception_text}
use totalrecall.Common.Run.{Run, pure, lift, ◌>>=◌}
use totalrecall.Errors.{service_error, provider_unavailable}
use totalrecall.Generation.Models.{GenerationRequest, GenerationResult, ReformulatedIntent}
use totalrecall.Context.Models.{ContextPlan}
use totalrecall.Providers.{is_not_found}
use totalrecall.Providers.Models.{ProviderMessage, ProviderResponse}
use totalrecall.Prompts.Redaction.{redact_messages}
use totalrecall.Validation.{not_run_summary}
use totalrecall.TestGen.Packs
use totalrecall.Generation.Orchestrator.{
  Libraries, GenerationOrchestrator, Identifiers, Produced, failed_result, blocked_result, is_some,
  code_status, pack_status, reformulated, guard_input, make_plan, build_messages, ask, guard_output,
  refined, produce_repaired, context_metadata,
}

-- The result of a gateway that does not know the provider; other exceptions pass.
abbrev pub unavailable : Identifiers → Exception → Outcome GenerationResult
unavailable ids e =
    if is_not_found e
    then ok
        (failed_result ids.request_id (service_error provider_unavailable (exception_text e) ∷ []))
    else raise e

module _ {W : Type 0} (lib : Libraries) (o : GenerationOrchestrator W) where
  -- The result of a request for test cases.
  unfoldable pub testgen_result :
      Identifiers → GenerationRequest → ContextPlan → Packs.PackResult → GenerationResult
  unfolding context_metadata pack_status
  testgen_result ids request plan (test_case_pack, errors) = record {
    request_id = ids.request_id;
    status = pack_status errors;
    artifacts = [];
    validation = not_run_summary;
    context = context_metadata lib o plan;
    errors = errors;
    test_case_pack = test_case_pack;
  }

  -- The result of a request for code.
  unfoldable pub code_result : Identifiers → ContextPlan → Produced → GenerationResult
  unfolding context_metadata code_status
  code_result ids plan produced = record {
    request_id = ids.request_id;
    status = code_status produced;
    artifacts = produced.artifacts;
    validation = produced.validation;
    context = context_metadata lib o plan;
    errors = produced.norm_errors;
    test_case_pack = none;
  }

  -- The steps after the output guardrail.
  unfoldable pub assemble :
      Identifiers
      → GenerationRequest
      → Option ReformulatedIntent
      → ContextPlan
      → List ProviderMessage
      → ProviderResponse
      → Run W GenerationResult
  unfolding refined testgen_result code_result produce_repaired
  assemble ids request intent plan messages response w =
      let (response', w') = refined lib o ids response w in
      if is_some intent && o.testgen_normalizer
      then (do
        pack ← lift (
            Packs.normalize lib.strip lib.splitlines lib.loads lib.validate_pack lib.field_order
              response'.raw_text request.jira_key)
        pure (testgen_result ids request plan pack))
          w'
      else (do
        produced ← produce_repaired lib o ids request messages response'
        pure (code_result ids plan produced))
          w'

  -- The steps after the gateway has answered.
  unfoldable pub finish :
      Identifiers
      → GenerationRequest
      → Option ReformulatedIntent
      → ContextPlan
      → List ProviderMessage
      → ProviderResponse
      → Run W GenerationResult
  unfolding guard_output blocked_result assemble
  finish ids request intent plan messages response w = elim (guard_output lib o response) [
    | raise e ↦ (raise e, w)
    | ok guard ↦
        if guard.passed
        then assemble ids request intent plan messages response w
        else (ok (blocked_result ids.request_id guard.violations), w)
  ]

  -- The messages as they leave, with the plan that they were built from.
  unfoldable pub prepared :
      Identifiers
      → GenerationRequest
      → Option ReformulatedIntent
      → W
      → (ContextPlan × List ProviderMessage) × W
  unfolding make_plan build_messages redact_messages
  prepared ids request intent w =
      let (plan, w1) = make_plan lib o ids request w in
      let (messages, w2) = build_messages lib o request plan intent w1 in
      ((plan, (redact_messages lib.compile messages).0), w2)

  -- The steps after the input guardrail.
  unfoldable pub dispatch :
      Identifiers → GenerationRequest → Option ReformulatedIntent → Run W GenerationResult
  unfolding prepared ask finish
  dispatch ids request intent w =
      let (ready, w1) = prepared ids request intent w in
      let (outcome, w2) = ask lib o ids request ready.1 w1 in
      elim outcome [
        | raise e ↦ (unavailable ids e, w2)
        | ok response ↦ finish ids request intent ready.0 ready.1 response w2
      ]

  unfoldable pub generate : Identifiers → GenerationRequest → Run W GenerationResult
  unfolding reformulated dispatch blocked_result
  generate ids request w =
      let (outcome, w') = reformulated lib o request w in
      elim outcome [
        | raise e ↦ (raise e, w')
        | ok intent ↦
            let guard = guard_input lib o request intent in
            if guard.passed
            then dispatch ids request intent w'
            else (ok (blocked_result ids.request_id guard.violations), w')
      ]
