-- ===== src/Generation/Examples.antt =====
-- totalrecall/generation: a pipeline over a log of the messages that its provider is sent.
use totalrecall.Common.{
  Bool, true, false, none, some, List, [], ◌∷◌, All, ◌≡◌, refl, arith, Bool-cases, inl, inr, subst,
  ap, if◌then◌else◌,
}
use mathlib.Core.Option.{some-injective}
use totalrecall.Common.Text.{String, ◌==◌, includes, truthy}
use totalrecall.Common.Dict
use totalrecall.Common.Dict.{Dict}
use totalrecall.Common.Json.{Json, entries, elements, literal, null, str}
use totalrecall.Common.Outcome.{Outcome, ok, raise, Exception, other, exception_name}
use totalrecall.Generation.Models.{GenerationStatus, GenerationRequest, ValidationStatus}
use totalrecall.Generation.Models.{artifact_type_text, language_text, language_eq}
use totalrecall.Generation.Samples.{request, metadata, skills, artifact}
use totalrecall.Providers.Models.{
  ProviderFinishReason, ProviderHealthStatus, ProviderInterface, ProviderMessage, ProviderRequest,
  ProviderResponse,
}
use totalrecall.Providers.Roundtrip.{answer_of, artifact_items}
use totalrecall.Providers.Normalizer
use totalrecall.Skills
use totalrecall.Providers
use totalrecall.Prompts.{build_repair_messages}
use totalrecall.Validation.{
  SyntaxFailure, python_error, overall, check_structure, check_java_syntax,
}
use totalrecall.TestGen.Guardrails.{check_input}
use totalrecall.Generation.Orchestrator.{
  Libraries, GenerationOrchestrator, Identifiers, Produced, code_status, ask, produce,
  produce_repaired,
}
use totalrecall.Auth.{TenantContext}
use totalrecall.Generation.Route.{App, create_generation}
use totalrecall.Generation.Route.Refusals.{is_error, IsUntouched, create_generation-refused}
use totalrecall.Generation.Pipeline.{generate}
use totalrecall.Generation.Dispatch.{IsRedacted, Sendable, Keeps}
use totalrecall.Generation.Dispatch.Answers.{generate-keeps}
use totalrecall.Generation.Statuses.{GivesCoherent, generate-coherent}
use totalrecall.Generation.Repairs.{lost, produce_repaired-unreadable}

abbrev Log : Type 0
Log = List (List ProviderMessage)

-- The first answer lists an artifact; any other is no JSON.
abbrev decode_error : Exception
decode_error = other "JSONDecodeError" "Expecting value"

abbrev loads : String → Outcome Json
loads text = if text == "first" then ok (answer_of (artifact ∷ [])) else raise decode_error

-- Every Python text has an error.
abbrev failure : SyntaxFailure
failure = record { msg = "invalid syntax"; lineno = null; offset = null }

abbrev py_str : Json → String
py_str (str s) = s
py_str v = ""

abbrev lib : Libraries
lib = record {
  list_text = λ names. "[...]";
  nat_text = λ n. "0";
  dumps = λ payload. "{}";
  loads = loads;
  py_str = py_str;
  trim = λ s. s;
  strip = λ s. s;
  splitlines = λ s. s ∷ [];
  compile = λ text. record { pattern = text; search = includes "sk-"; sub = λ r s. r };
  has_class = λ s. true;
  parse_python = λ s. ok (some failure);
  validate_pack = λ v. raise (other "ValidationError" "no pack");
  set_order = λ types. types;
  field_order = λ fields. fields;
  percent = λ saved baseline. literal "10.0";
}

abbrev response : String → ProviderResponse
response raw_text = record {
  request_id = "r";
  provider_id = "stub";
  model = "m";
  raw_text = raw_text;
  usage = record { input_tokens = 0; output_tokens = 0 };
  finish_reason = ProviderFinishReason.stop;
  errors = [];
  latency_ms = none;
  metadata = [];
}

abbrev answer : Log → String
answer [] = "first"
answer (sent ∷ log) = "second"

abbrev stub : ProviderInterface Log
stub = record {
  provider_id = "stub";
  generate = λ sent log. (ok (response (answer log)), sent.messages ∷ log);
  health = λ log. (
    ok (record {
      provider_id = "stub";
      status = ProviderHealthStatus.ok;
      model = none;
      latency_ms = none;
      error = none;
    }),
    log,
  );
}

abbrev with_providers : Dict (ProviderInterface Log) → GenerationOrchestrator Log
with_providers providers = record {
  search = λ r log. (ok (record { items = []; adapter_version = "null" }), log);
  get = λ r log. (ok none, log);
  extract = λ r. metadata;
  providers = providers;
  worker = none;
  skills = skills;
  reformulator = none;
  input_guardrail = none;
  output_guardrail = none;
  fetch_story = none;
  retrieve = none;
  test_type_router = false;
  testgen_prompt_builder = false;
  tone_checker = none;
  testgen_normalizer = false;
}

abbrev pipeline : GenerationOrchestrator Log
pipeline = with_providers (("stub", stub) ∷ [])

abbrev ids : Identifiers
ids = record { request_id = "req-1"; context_plan_id = "plan-1" }

-- Every message that was sent is redacted.
abbrev IsClean : Log → Type 0
IsClean log = All (IsRedacted lib) log

kept_by_stub :
    (id : String) (p : ProviderInterface Log) (sent : ProviderRequest) (log : Log)
    → Dict.get pipeline.providers id ≡ some p
    → Sendable lib request sent
    → IsClean log
    → IsClean (p.generate sent log).1
unfolding Dict.get
kept_by_stub id p sent log registered sendable clean = elim (Bool-cases ("stub" == id)) [
  | inr differs ↦ absurd (ground (arith, differs, registered))
  | inl same ↦
      let found : stub ≡ p = some-injective stub p (ground (arith, same, registered)) in
      subst (λ p. IsClean (p.generate sent log).1) found (sendable.1, clean)
]

pipeline-Keeps : Keeps Log lib pipeline request IsClean
pipeline-Keeps = record {
  search = λ r w inv. inv;
  get = λ r w inv. inv;
  worker = λ f artifacts w e inv. absurd (ground (arith, e));
  reformulator = λ f prompt key types w e inv. absurd (ground (arith, e));
  fetch_story = λ f key w e inv. absurd (ground (arith, e));
  retrieve = λ f query tenant n w e inv. absurd (ground (arith, e));
  tone_checker = λ f text id w e inv. absurd (ground (arith, e));
  provider = kept_by_stub;
}

generate-keeps_example : IsClean (generate lib pipeline ids request []).1
generate-keeps_example = generate-keeps lib pipeline request IsClean pipeline-Keeps ids [] tt

generate-coherent_example : GivesCoherent (generate lib pipeline ids request []).0
generate-coherent_example = generate-coherent lib pipeline ids request []

-- The rules for requests, with one pattern for all personal data, and a prompt that has some.
abbrev find : String → String → Bool
find pattern text = includes "@" text

abbrev lower : String → String
lower text = text

abbrev guarded : GenerationOrchestrator Log
guarded = record pipeline { input_guardrail = some (check_input find find lower) }

abbrev personal : GenerationRequest
personal = record request { prompt = "test the login of eve@acme.org" }

abbrev original : Produced
original = record {
  artifacts = artifact ∷ [];
  norm_errors = [];
  validation = record {
    status = ValidationStatus.failed;
    diagnostics = python_error artifact failure ∷ [];
  };
}

-- The log after the first call.
abbrev asked_once : Log
asked_once = [] ∷ []

produce_first :
    produce lib pipeline request (response "first") asked_once ≡ (ok original, asked_once)
unfolding produce Normalizer.normalize entries elements artifact_items artifact_type_text
    language_text truthy language_eq overall check_structure Skills.select check_java_syntax
produce_first = refl

ask_second :
    (ask lib pipeline ids request
      (build_repair_messages [] "first" original.validation.diagnostics)
      (produce lib pipeline request (response "first") asked_once).1).0
    ≡ ok (response "second")
unfolding ask Providers.generate Dict.get
ask_second = rw produce_first refl

produce_repaired-unreadable_example :
    ((produce_repaired lib pipeline ids request [] (response "first") asked_once).0
      ≡ ok (lost request "second" decode_error))
    × (code_status (lost request "second" decode_error) ≡ GenerationStatus.failed)
    × (code_status original ≡ GenerationStatus.completed)
unfolding exception_name
produce_repaired-unreadable_example =
    produce_repaired-unreadable lib pipeline ids request [] (response "first") (response "second")
      original asked_once decode_error (ap (λ p. p.0) produce_first) refl refl ask_second refl refl

-- An application without a limiter, and a token of another tenant.
abbrev app : App Log
app = record { rate_limit_provider = none; metrics = none; tasks = []; world = [] }

abbrev stranger : TenantContext
stranger = record { tenant_id = "umbrella"; actor_id = "eve"; roles = []; permissions = [] }

create_generation-refused_example :
    (is_error (create_generation lib pipeline true true 1 0 ids stranger request app).0 ≡ true)
    × IsUntouched lib pipeline true true 1 app
        (create_generation lib pipeline true true 1 0 ids stranger request app).1
create_generation-refused_example =
    create_generation-refused lib pipeline true true 1 0 ids stranger request app refl
