-- ===== src/TestGen/Guardrails.antt =====
-- totalrecall/testgen/guardrails: the checks of a request before, and of an answer after, the call of
-- a model. `search` is the search of a regular expression in a text, `matches` the match at the
-- beginning, `search_any_case` the search that ignores case; `lower`, `loads`, `dumps` and `list_text`
-- are the library's functions on texts, JSON and lists.
use totalrecall.Common.{
  Bool, true, false, ◌&&◌, not, Option, none, some, List, [], ◌∷◌, ◌⊕◌, any, filter, is_empty,
  if◌then◌else◌,
}
use totalrecall.Common.Text.{String, ◌++◌, ◌==◌, truthy, contains, includes, sorted}
use totalrecall.Common.Dict
use totalrecall.Common.Json.{Json, entries}
use totalrecall.Common.Outcome.{Outcome, ok, raise, Exception, value_error, exception_name}
use totalrecall.Generation.Models.{GenerationRequest, ReformulatedIntent}

pub data GuardrailViolationCode : Type 0 where
  unsafe_content not_qa_domain missing_required_field jira_key_format : GuardrailViolationCode

pub record GuardrailViolation : Type 0 where
  pub code : GuardrailViolationCode
  pub message : String
  pub field : Option String

pub record GuardrailResult : Type 0 where
  pub passed : Bool
  pub violations : List GuardrailViolation

-- `InputGuardrailAdapter.check`, and the guardrails that ignore the request.
abbrev pub InputGuardrailAdapter : Type 0
InputGuardrailAdapter = GenerationRequest → Option ReformulatedIntent → GuardrailResult

abbrev pub null_input_guardrail : InputGuardrailAdapter
null_input_guardrail request intent = record { passed = true; violations = [] }

abbrev pub stub_input_guardrail : Bool → List GuardrailViolation → InputGuardrailAdapter
stub_input_guardrail should_pass violations request intent = record {
  passed = should_pass;
  violations = violations;
}

-- `OutputGuardrailAdapter.check`
abbrev pub OutputGuardrailAdapter : Type 0
OutputGuardrailAdapter = String → Outcome GuardrailResult

abbrev pub null_output_guardrail : OutputGuardrailAdapter
null_output_guardrail raw_text = ok (record { passed = true; violations = [] })

abbrev pub jira_key_re : String
jira_key_re = "^[A-Z][A-Z0-9_]+-\\d+$"

abbrev pub pii_patterns : List String
pii_patterns =
    "\\b\\d{3}-\\d{2}-\\d{4}\\b" ∷ "\\b4[0-9]{12}(?:[0-9]{3})?\\b"
    ∷ "\\b[A-Za-z0-9._%+\\-]+@[A-Za-z0-9.\\-]+\\.[A-Z|a-z]{2,}\\b" ∷ []

abbrev pub qa_keywords : List String
qa_keywords =
    "test" ∷ "spec" ∷ "scenario" ∷ "case" ∷ "validate" ∷ "verify" ∷ "check" ∷ "assert" ∷ "jira"
    ∷ "story" ∷ "acceptance" ∷ "criteria" ∷ "functional" ∷ "negative" ∷ "edge" ∷ "api"
    ∷ "regression" ∷ "login" ∷ "logout" ∷ "user" ∷ "form" ∷ "page" ∷ "flow" ∷ "endpoint" ∷ []

-- A violation about a field, and one without.
abbrev pub violation : GuardrailViolationCode → String → Option String → GuardrailViolation
violation code message field = record { code = code; message = message; field = field }

abbrev pub unsafe : String → GuardrailViolation
unsafe message = violation unsafe_content message none

abbrev pub result_of : List GuardrailViolation → GuardrailResult
result_of violations = record { passed = is_empty violations; violations = violations }

module _ (matches search : String → String → Bool) (lower : String → String) where
  -- Whether the request has a key that is not a key of a Jira story.
  abbrev pub bad_key : Option String → Bool
  bad_key none = false
  bad_key (some key) = truthy key && not (matches jira_key_re key)

  abbrev pub key_violations : Option String → List GuardrailViolation
  key_violations none = []
  key_violations (some key) =
      if bad_key (some key)
      then (violation jira_key_format
            ("JIRA key '" ++ (key ++ "' does not match PROJECT-NNN format")) (some "jira_key")
          ∷ [])
      else []

  abbrev pub mentions_testing : String → Bool
  mentions_testing prompt = any (λ kw. includes kw (lower prompt)) qa_keywords

  -- The loop over the patterns stops at the first that is found.
  unfoldable pub pii_violations : List String → String → List GuardrailViolation
  pii_violations [] prompt = []
  pii_violations (pattern ∷ patterns) prompt =
      let rest = pii_violations patterns prompt in
      if search pattern prompt
      then (violation unsafe_content "Prompt contains potential PII — remove before submitting"
            (some "prompt")
          ∷ [])
      else rest

  unfoldable pub check_input : InputGuardrailAdapter
  unfolding pii_violations
  check_input request intent = result_of (
      key_violations request.jira_key
      ⊕ (if mentions_testing request.prompt
          then []
          else (violation not_qa_domain "Prompt does not appear to be a QA test generation request"
                (some "prompt")
              ∷ []))
      ⊕ pii_violations pii_patterns request.prompt)

abbrev pub sql_injection_re : String
sql_injection_re =
    "(DROP\\s+TABLE|DELETE\\s+FROM|INSERT\\s+INTO|UPDATE\\s+\\w+\\s+SET|TRUNCATE\\s+TABLE|ALTER\\s+TABLE)"

abbrev pub pii_re : String
pii_re =
    "(\\b\\d{3}-\\d{2}-\\d{4}\\b|\\b4[0-9]{12}(?:[0-9]{3})?\\b|\\b[A-Za-z0-9._%+\\-]+@[A-Za-z0-9.\\-]+\\.[A-Z|a-z]{2,}\\b)"

abbrev pub allowed_top_keys : List String
allowed_top_keys =
    "story_summary" ∷ "assumptions" ∷ "test_cases" ∷ "traceability_matrix" ∷ "coverage_summary"
    ∷ "artifacts" ∷ []

-- The exceptions of the class ValueError, to which those of the JSON reader belong.
abbrev pub is_value_error : Exception → Bool
is_value_error (value_error s) = true
is_value_error e = exception_name e == "JSONDecodeError"

module _ (search search_any_case : String → String → Bool) (loads : String → Outcome Json)
    (dumps : Json → String) (list_text : List String → String) where
  -- The keys of an object that are not allowed.
  unfoldable pub unknown_keys : Json → List String
  unfolding contains
  unknown_keys (Json.obj fields) =
      filter (λ k. not (contains k allowed_top_keys)) (Dict.keys (entries fields))
  unknown_keys payload = []

  abbrev pub key_violations_of : List String → List GuardrailViolation
  key_violations_of keys =
      if is_empty keys
      then []
      else unsafe ("Response contains unexpected top-level keys: " ++ list_text (sorted keys)) ∷ []

  unfoldable pub check_data : Json → GuardrailResult
  unfolding unknown_keys
  check_data payload =
      let text_content = dumps payload in
      result_of (
        key_violations_of (unknown_keys payload)
        ⊕ (if search_any_case sql_injection_re text_content
            then unsafe "Response contains SQL injection patterns" ∷ []
            else [])
        ⊕ (if search pii_re text_content
            then unsafe "Response contains potential PII" ∷ []
            else []))

  unfoldable pub check_output : OutputGuardrailAdapter
  unfolding check_data
  check_output raw_text = elim (loads raw_text) [
    | ok payload ↦ ok (check_data payload)
    | raise e ↦
        if is_value_error e
        then ok
            (record { passed = false; violations = unsafe "LLM response is not valid JSON" ∷ [] })
        else raise e
  ]
