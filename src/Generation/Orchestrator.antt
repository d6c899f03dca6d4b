-- ===== src/Generation/Orchestrator.antt =====
-- totalrecall/generation/orchestrator.py: the pipeline that answers a request. `W` is the state behind
-- the memory, the providers and the other adapters. The two fetches, which run in parallel in the
-- source, stand here one after the other, and a fetch that times out raises.
use totalrecall.Common.{
  ℕ, zero, suc, Bool, true, false, ◌&&◌, ◌||◌, not, Option, none, some, List, [], map, count,
  is_empty, if◌then◌else◌,
}
use totalrecall.Common.Text.{String, truthy}
use totalrecall.Common.Dict.{Dict}
use totalrecall.Common.Json.{Json, Float, literal}
use totalrecall.Common.Outcome.{Outcome, ok, raise}
use totalrecall.Common.Run.{Run, pure, lift, ◌>>=◌}
use totalrecall.Errors.{ServiceError, service_error, guardrail_blocked}
use totalrecall.Generation.Models.{
  ArtifactType, GenerationStatus, GenerationRequest, GeneratedArtifact, ValidationSummary,
  GenerationContextMetadata, no_context, GenerationResult, TestCasePack, ReformulatedIntent,
  JiraStory, RagChunk, is_failed,
}
use totalrecall.Memory.Models.{
  MemoryEntry, MemoryGetRequest, MemorySearchRequest, MemorySearchResult,
}
use totalrecall.Skills.{SkillRegistry, select}
use totalrecall.Context
use totalrecall.Context.Models.{
  ContextPlan, ContextExclusion, ContextExclusionReason, ExternalPlanInputs, RequestMetadata,
}
use totalrecall.Providers
use totalrecall.Providers.{is_not_found}
use totalrecall.Providers.Models.{
  ProviderMessage, ProviderRequest, ProviderResponse, ProviderInterface,
}
use totalrecall.Providers.Normalizer
use totalrecall.Prompts.{build_repair_messages}
use totalrecall.Prompts.Builder
use totalrecall.Learning.Redactor.{Pattern}
use totalrecall.Validation.{PlaywrightValidationWorker, SyntaxFailure, not_run_summary, validate}
use totalrecall.TestGen.Guardrails.{
  GuardrailResult, GuardrailViolation, InputGuardrailAdapter, OutputGuardrailAdapter,
}
use totalrecall.TestGen.Adapters.{ReformulatorAdapter, ToneCheckAdapter, requested, route}
use totalrecall.TestGen.Prompts

-- The functions of the libraries that the parts of the pipeline call.
pub record Libraries : Type 0 where
  pub list_text : List String → String
  pub nat_text : ℕ → String
  pub dumps : Json → String
  pub loads : String → Outcome Json
  pub py_str : Json → String
  pub trim : String → String
  pub strip : String → String
  pub splitlines : String → List String
  pub compile : String → Pattern
  pub has_class : String → Bool
  pub parse_python : String → Outcome (Option SyntaxFailure)
  pub validate_pack : Json → Outcome TestCasePack
  pub set_order : List ArtifactType → List ArtifactType
  pub field_order : List String → List String
  pub percent : ℕ → ℕ → Float

-- What the orchestrator is given. An optional part of it may be missing; the optional parts without a
-- state of their own are flags.
pub record GenerationOrchestrator (W : Type 0) : Type 0 where
  pub search : MemorySearchRequest → W → Outcome MemorySearchResult × W
  pub get : MemoryGetRequest → W → Outcome (Option MemoryEntry) × W
  pub extract : GenerationRequest → RequestMetadata
  pub providers : Dict (ProviderInterface W)
  pub worker : Option (PlaywrightValidationWorker W)
  pub skills : SkillRegistry
  pub reformulator : Option (ReformulatorAdapter W)
  pub input_guardrail : Option InputGuardrailAdapter
  pub output_guardrail : Option OutputGuardrailAdapter
  pub fetch_story : Option (String → W → Outcome (Option JiraStory) × W)
  pub retrieve : Option (String → String → ℕ → W → Outcome (List RagChunk) × W)
  pub test_type_router : Bool
  pub testgen_prompt_builder : Bool
  pub tone_checker : Option (ToneCheckAdapter W)
  pub testgen_normalizer : Bool

-- The identifiers that the call makes.
pub record Identifiers : Type 0 where
  pub request_id : String
  pub context_plan_id : String

abbrev pub has_text : Option String → Bool
has_text none = false
has_text (some s) = truthy s

abbrev pub is_some {ℓ} : {A : Type ℓ} → Option A → Bool
is_some none = false
is_some (some a) = true

-- A result without artifacts, with its errors.
unfoldable pub failed_result : String → List ServiceError → GenerationResult
failed_result request_id errors = record {
  request_id = request_id;
  status = GenerationStatus.failed;
  artifacts = [];
  validation = not_run_summary;
  context = no_context;
  errors = errors;
  test_case_pack = none;
}

unfoldable pub blocked_result : String → List GuardrailViolation → GenerationResult
unfolding failed_result
blocked_result request_id violations =
    failed_result request_id (map (λ v. service_error guardrail_blocked v.message) violations)

abbrev pub over_budget : ContextExclusion → Bool
over_budget e = elim e.reason [ ContextExclusionReason.token_budget ↦ true | _ ↦ false ]

-- What the code and the repair come to: the artifacts, the errors and the validation.
pub record Produced : Type 0 where
  pub artifacts : List GeneratedArtifact
  pub norm_errors : List ServiceError
  pub validation : ValidationSummary

-- The status of a result with code.
unfoldable pub code_status : Produced → GenerationStatus
code_status p =
    if (not (is_empty p.norm_errors) || is_failed p.validation.status) && is_empty p.artifacts
    then GenerationStatus.failed
    else GenerationStatus.completed

unfoldable pub pack_status : List ServiceError → GenerationStatus
pack_status errors = if is_empty errors then GenerationStatus.completed else GenerationStatus.failed

-- Whether the caller asked for a repair and the validation calls for one.
abbrev pub needs_repair : GenerationRequest → ValidationSummary → Bool
needs_repair request validation =
    request.options.allow_repair
    && is_failed validation.status
    && not (is_empty validation.diagnostics)

module _ {W : Type 0} (lib : Libraries) (o : GenerationOrchestrator W) where
  -- Step 0: the intent behind the prompt of a request for test cases.
  unfoldable pub reformulated : GenerationRequest → Run W (Option ReformulatedIntent)
  reformulated request w = elim o.reformulator [
    | none ↦ (ok none, w)
    | some reformulate ↦
        if has_text request.jira_key || not (is_empty (requested request.test_types))
        then (do
          intent ← reformulate request.prompt request.jira_key request.test_types
          pure (some intent))
            w
        else (ok none, w)
  ]

  -- Step 1: the verdict of the input guardrail.
  abbrev pub guard_input : GenerationRequest → Option ReformulatedIntent → GuardrailResult
  guard_input request intent = elim o.input_guardrail [
    | none ↦ record { passed = true; violations = [] }
    | some check ↦ check request intent
  ]

  -- Step 2: an exception leaves the input out.
  unfoldable pub fetch_jira : GenerationRequest → W → Option JiraStory × W
  fetch_jira request w = elim o.fetch_story [
    | none ↦ (none, w)
    | some fetch ↦ elim request.jira_key [
      | none ↦ (none, w)
      | some key ↦
          if truthy key
          then (let (outcome, w') = fetch key w in
              (elim outcome [ ok story ↦ story | raise e ↦ none ], w'))
          else (none, w)
    ]
  ]

  unfoldable pub fetch_rag : GenerationRequest → W → List RagChunk × W
  fetch_rag request w = elim o.retrieve [
    | none ↦ ([], w)
    | some retrieve ↦
        let (outcome, w') = retrieve request.prompt request.tenant_id 5 w in
        (elim outcome [ ok chunks ↦ chunks | raise e ↦ [] ], w')
  ]

  unfoldable pub fetch_inputs : GenerationRequest → W → ExternalPlanInputs × W
  unfolding fetch_jira fetch_rag
  fetch_inputs request w =
      let (jira_story, w1) = fetch_jira request w in
      let (rag_chunks, w2) = fetch_rag request w1 in
      (record { jira_story = jira_story; rag_chunks = rag_chunks }, w2)

  -- Step 3
  unfoldable pub make_plan : Identifiers → GenerationRequest → W → ContextPlan × W
  unfolding fetch_inputs
  make_plan ids request w =
      let (inputs, w') = fetch_inputs request w in
      Context.plan o.search o.extract o.skills ids.context_plan_id request ids.request_id inputs w'

  -- Step 4: the messages for test cases when there is an intent, and for code otherwise.
  unfoldable pub build_messages :
      GenerationRequest → ContextPlan → Option ReformulatedIntent → W → List ProviderMessage × W
  build_messages request plan intent w = elim intent [
    | none ↦ Builder.build o.get lib.dumps o.skills request plan w
    | some i ↦
        if o.test_type_router && o.testgen_prompt_builder
        then (Prompts.build lib.dumps lib.nat_text request plan i (route (some i) request), w)
        else Builder.build o.get lib.dumps o.skills request plan w
  ]

  abbrev pub provider_request :
      Identifiers → GenerationRequest → List ProviderMessage → ProviderRequest
  provider_request ids request messages = record {
    request_id = ids.request_id;
    tenant_id = request.tenant_id;
    messages = messages;
    config = record {
      provider_id = request.provider.provider_id;
      model = request.provider.model;
      timeout_seconds = 60;
      max_output_tokens = request.options.max_output_tokens;
      temperature = literal "0.0";
    };
    metadata = [];
  }

  -- A call of the gateway with these messages.
  unfoldable pub ask :
      Identifiers → GenerationRequest → List ProviderMessage → Run W ProviderResponse
  ask ids request messages =
      Providers.generate lib.list_text o.providers (provider_request ids request messages)
        request.provider.fallback_provider_ids

  unfoldable pub guard_output : ProviderResponse → Outcome GuardrailResult
  guard_output response = elim o.output_guardrail [
    | none ↦ ok (record { passed = true; violations = [] })
    | some check ↦ check response.raw_text
  ]

  -- Step 4b: the refined text takes the place of the text.
  unfoldable pub refined : Identifiers → ProviderResponse → W → ProviderResponse × W
  refined ids response w = elim o.tone_checker [
    | none ↦ (response, w)
    | some refine ↦
        let (result, w') = refine response.raw_text ids.request_id w in
        (record response { raw_text = result.0 }, w')
  ]

  -- Step 6: the validation, if the caller wants it.
  unfoldable pub validated : GenerationRequest → List GeneratedArtifact → Run W ValidationSummary
  unfolding validate
  validated request artifacts w =
      if request.options.validation_enabled
      then validate lib.set_order lib.has_class lib.parse_python o.worker artifacts
          (select o.skills request.target.language request.target.framework) w
      else (ok not_run_summary, w)

  -- Steps 5 and 6 for an answer with code.
  unfoldable pub produce : GenerationRequest → ProviderResponse → Run W Produced
  unfolding validated
  produce request response = do
    normalized ← lift (Normalizer.normalize lib.loads lib.py_str lib.nat_text lib.trim response)
    validation ← validated request normalized.0
    pure (record { artifacts = normalized.0; norm_errors = normalized.1; validation = validation })

  -- Step 5a: the answer to the repair takes the place of the original, unless the gateway does not know
  -- the provider.
  unfoldable pub repair :
      Identifiers
      → GenerationRequest
      → List ProviderMessage
      → ProviderResponse
      → Produced
      → Run W Produced
  unfolding ask produce
  repair ids request messages response original w =
      let repair_messages =
        build_repair_messages messages response.raw_text original.validation.diagnostics in
      let (outcome, w') =
        (do repair_response ← ask ids request repair_messages; produce request repair_response) w in
      elim outcome [
        | ok repaired ↦ (ok repaired, w')
        | raise e ↦ if is_not_found e then (ok original, w') else (raise e, w')
      ]

  unfoldable pub produce_repaired :
      Identifiers → GenerationRequest → List ProviderMessage → ProviderResponse → Run W Produced
  unfolding produce repair
  produce_repaired ids request messages response w =
      let (outcome, w') = produce request response w in
      elim outcome [
        | raise e ↦ (raise e, w')
        | ok original ↦
            if needs_repair request original.validation
            then repair ids request messages response original w'
            else (ok original, w')
      ]

  unfoldable pub context_metadata : ContextPlan → GenerationContextMetadata
  context_metadata plan = record {
    context_plan_id = some plan.context_plan_id;
    skill_ids = plan.skill_ids;
    memory_ids = plan.memory_ids;
    estimated_input_tokens = plan.token_budget.estimated_input_tokens;
    baseline_input_tokens = plan.token_budget.baseline_estimate;
    estimated_tokens_saved = plan.token_budget.estimated_tokens_saved;
    token_savings_percent = elim plan.token_budget.baseline_estimate [
      | zero ↦ literal "0.0"
      | suc n ↦ lib.percent plan.token_budget.estimated_tokens_saved (suc n)
    ];
    excluded_memory_count = count over_budget plan.excluded;
    max_input_tokens = plan.token_budget.max_input_tokens;
  }
