-- ===== src/TestGen/Adapters.antt =====
-- totalrecall/testgen: routing/router.py, tone/checker.py and reformulator.py. The gateway's `generate`
-- is an argument of the adapters that call a model, over the state `W` behind the providers.
use totalrecall.Common.{
  Bool, false, not, Option, none, some, List, [], ◌∷◌, any, filter, is_empty, if◌then◌else◌, ltb,
}
use totalrecall.Common.Text.{String, ◌++◌, ◌==◌, truthy, includes, char_count, take_chars}
use totalrecall.Common.Json.{literal}
use totalrecall.Common.Outcome.{Outcome, ok, raise, other, ◌>>=◌}
use totalrecall.Generation.Models.{TestType, GenerationRequest, ReformulatedIntent}
use totalrecall.Providers.Models.{ProviderRole, ProviderRequest, ProviderResponse}
use totalrecall.Prompts.{new_message}

abbrev pub default_test_types : List TestType
default_test_types = TestType.functional ∷ TestType.negative ∷ TestType.edge_case ∷ []

-- The requested types of a request: none and an empty list count alike.
abbrev pub requested : Option (List TestType) → List TestType
requested none = []
requested (some types) = types

unfoldable pub route : Option ReformulatedIntent → GenerationRequest → List TestType
route intent request =
    if is_empty (requested request.test_types)
    then elim intent [
      | none ↦ default_test_types
      | some i ↦ if is_empty i.test_types then default_test_types else i.test_types
    ]
    else requested request.test_types

-- `ToneCheckAdapter.refine`
abbrev pub ToneCheckAdapter : Type 0 → Type 0
ToneCheckAdapter W = String → String → W → (String × Bool) × W

abbrev pub null_refine : {W : Type 0} → ToneCheckAdapter W
null_refine raw_text request_id w = ((raw_text, false), w)

abbrev pub tone_system_prompt : String
tone_system_prompt =
    "You are a QA writing coach. You will be given generated test case output. Rewrite it using professional, concise QA language: active voice, present tense, no filler phrases, no marketing language. Preserve all JSON structure and field values exactly — only improve wording inside string fields (title, steps, expected_result). Return only the revised JSON with no additional commentary."

abbrev pub tone_request : String → String → ProviderRequest
tone_request raw_text request_id = record {
  request_id = request_id ++ "-tone";
  tenant_id = "system";
  messages =
      new_message ProviderRole.system tone_system_prompt
      ∷ new_message ProviderRole.user raw_text
      ∷ [];
  config = record {
    provider_id = "default";
    model = "default";
    timeout_seconds = 60;
    max_output_tokens = some 4096;
    temperature = literal "0.0";
  };
  metadata = [];
}

module _ {W : Type 0} (strip : String → String)
    (generate : ProviderRequest → W → Outcome ProviderResponse × W) where
  unfoldable pub refine : ToneCheckAdapter W
  refine raw_text request_id w =
      let (outcome, w') = generate (tone_request raw_text request_id) w in
      (
        elim outcome [
          | raise e ↦ (raw_text, false)
          | ok response ↦ (strip response.raw_text, not (strip response.raw_text == strip raw_text))
        ],
        w',
      )

-- `ReformulatorAdapter.reformulate`
abbrev pub ReformulatorAdapter : Type 0 → Type 0
ReformulatorAdapter W =
    String → Option String → Option (List TestType) → W → Outcome ReformulatedIntent × W

abbrev pub keywords : TestType → List String
keywords TestType.functional = "functional" ∷ "happy path" ∷ "positive" ∷ "valid" ∷ []
keywords TestType.negative = "negative" ∷ "invalid" ∷ "error" ∷ "failure" ∷ "unhappy" ∷ []
keywords TestType.edge_case = "edge" ∷ "boundary" ∷ "corner" ∷ "limit" ∷ []
keywords TestType.api = "api" ∷ "endpoint" ∷ "rest" ∷ "request" ∷ "response" ∷ "http" ∷ []
keywords TestType.regression = "regression" ∷ "smoke" ∷ "re-test" ∷ "existing" ∷ []

abbrev pub all_test_types : List TestType
all_test_types =
    TestType.functional ∷ TestType.negative ∷ TestType.edge_case ∷ TestType.api
    ∷ TestType.regression ∷ []

-- `find_key` is the search for a key of a Jira story, `lower`, `strip` and `splitlines` are the
-- library's functions on texts.
module _ (find_key : String → Option String) (lower strip : String → String)
    (splitlines : String → List String) where
  unfoldable pub infer_types : String → List TestType
  infer_types text =
      let matched =
        filter (λ t. any (λ kw. includes kw (lower text)) (keywords t)) all_test_types in
      if is_empty matched then default_test_types else matched

  -- The first line, cut to 200 characters; a prompt of whitespace has none.
  unfoldable pub summarize : String → Outcome String
  summarize prompt = elim (splitlines (strip prompt)) [
    | [] ↦ raise (other "IndexError" "list index out of range")
    | first_line ∷ rest ↦
        ok (if ltb 200 (char_count first_line) then take_chars 200 first_line else first_line)
  ]

  -- `jira_key or self._extract_jira_key(prompt)`
  abbrev pub resolve_key : Option String → String → Option String
  resolve_key none prompt = find_key prompt
  resolve_key (some key) prompt = if truthy key then some key else find_key prompt

  unfoldable pub reformulate : {W : Type 0} → ReformulatorAdapter W
  unfolding summarize infer_types
  reformulate prompt jira_key test_types w = (
    (do
      intent_summary ← summarize prompt
      ok (record {
        jira_key = resolve_key jira_key prompt;
        intent_summary = intent_summary;
        test_types =
            if is_empty (requested test_types) then infer_types prompt else requested test_types;
        output_format = "test_case_pack";
        raw_prompt = prompt;
        confidence = literal "0.7";
      })),
    w,
  )

unfoldable pub stub_reformulate : {W : Type 0} → Option ReformulatedIntent → ReformulatorAdapter W
stub_reformulate (some fixed) prompt jira_key test_types w = (ok fixed, w)
stub_reformulate none prompt jira_key test_types w = (
  ok (record {
    jira_key = jira_key;
    intent_summary = "Stub intent summary";
    test_types =
        if is_empty (requested test_types) then TestType.functional ∷ [] else requested test_types;
    output_format = "test_case_pack";
    raw_prompt = prompt;
    confidence = literal "1.0";
  }),
  w,
)
