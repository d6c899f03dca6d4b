-- ===== src/Generation/Dispatch.antt =====
-- totalrecall/generation/orchestrator.py: what leaves for the providers.
pub mod Calls
pub mod Answers
use totalrecall.Common.{
  Bool, true, false, ◌&&◌, ◌||◌, not, Option, none, some, List, [], ◌∷◌, ℕ, ◌≡◌, refl, ◌⊎◌, inl,
  inr, sym, ◌∙◌, ap, subst, arith, Bool-cases, Option-cases, is_empty, if◌then◌else◌,
}
use totalrecall.Common.Text.{String}
use totalrecall.Common.Dict
use totalrecall.Common.Dict.{Dict}
use totalrecall.Common.Outcome.{Outcome, ok, raise, Exception, Outcome-cases}
use totalrecall.Common.Run.{Run}
use totalrecall.Generation.Models.{
  GenerationRequest, GenerationResult, GeneratedArtifact, ReformulatedIntent, ValidationDiagnostic,
  JiraStory, RagChunk, TestType, Language,
}
use totalrecall.Memory.Models.{MemoryGetRequest, MemorySearchRequest}
use totalrecall.Skills.{SkillDefinition, select}
use totalrecall.Context
use totalrecall.Context.Models.{ContextPlan, SelectedMemory}
use totalrecall.Providers
use totalrecall.Providers.{is_not_found, rebind, try_chain, resolve}
use totalrecall.Providers.Models.{
  ProviderMessage, ProviderRequest, ProviderResponse, ProviderInterface,
}
use totalrecall.Providers.Normalizer
use totalrecall.Prompts.{build_repair_messages}
use totalrecall.Prompts.Builder
use totalrecall.Prompts.Redaction.{redact_messages}
use totalrecall.Validation.{
  PlaywrightValidationWorker, validate, check_playwright_worker, check_python_syntax, in_language,
}
use totalrecall.TestGen.Packs
use totalrecall.TestGen.Adapters.{ReformulatorAdapter, ToneCheckAdapter}
use totalrecall.Generation.Orchestrator.{
  Libraries, GenerationOrchestrator, Identifiers, Produced, reformulated, fetch_jira, fetch_rag,
  fetch_inputs, make_plan, build_messages, provider_request, ask, guard_output, refined, validated,
  produce, repair, produce_repaired, needs_repair, is_some,
}
use totalrecall.Generation.Pipeline.{assemble, finish, prepared, dispatch, generate}

-- Messages whose texts of the user were redacted, or those messages with a turn for a repair.
abbrev pub IsRedacted : Libraries → List ProviderMessage → Type 0
IsRedacted lib messages =
    ((raw : List ProviderMessage) × (messages ≡ (redact_messages lib.compile raw).0))
    ⊎ ((raw : List ProviderMessage) × (text : String) × (diagnostics : List ValidationDiagnostic)
        × (messages ≡ build_repair_messages (redact_messages lib.compile raw).0 text diagnostics))

-- What may be sent for a request: redacted messages, in the name of the request's tenant.
abbrev pub Sendable : Libraries → GenerationRequest → ProviderRequest → Type 0
Sendable lib request sent = (sent.tenant_id ≡ request.tenant_id) × IsRedacted lib sent.messages

-- Every adapter keeps a property of the state, and a provider keeps it when it is sent what may be
-- sent.
pub record Keeps (W : Type 0) (lib : Libraries) (o : GenerationOrchestrator W)
    (request : GenerationRequest) (Inv : W → Type 0) : Type 1 where
  pub search : (r : MemorySearchRequest) (w : W) → Inv w → Inv (o.search r w).1
  pub get : (r : MemoryGetRequest) (w : W) → Inv w → Inv (o.get r w).1
  pub worker :
      (f : PlaywrightValidationWorker W) (artifacts : List GeneratedArtifact) (w : W)
      → o.worker ≡ some f
      → Inv w
      → Inv (f artifacts w).1
  pub reformulator :
      (f : ReformulatorAdapter W) (prompt : String) (key : Option String)
      (types : Option (List TestType)) (w : W)
      → o.reformulator ≡ some f
      → Inv w
      → Inv (f prompt key types w).1
  pub fetch_story :
      (f : String → W → Outcome (Option JiraStory) × W) (key : String) (w : W)
      → o.fetch_story ≡ some f
      → Inv w
      → Inv (f key w).1
  pub retrieve :
      (f : String → String → ℕ → W → Outcome (List RagChunk) × W) (query tenant : String) (n : ℕ)
      (w : W)
      → o.retrieve ≡ some f
      → Inv w
      → Inv (f query tenant n w).1
  pub tone_checker :
      (f : ToneCheckAdapter W) (text id : String) (w : W)
      → o.tone_checker ≡ some f
      → Inv w
      → Inv (f text id w).1
  pub provider :
      (id : String) (p : ProviderInterface W) (sent : ProviderRequest) (w : W)
      → Dict.get o.providers id ≡ some p
      → Sendable lib request sent
      → Inv w
      → Inv (p.generate sent w).1
