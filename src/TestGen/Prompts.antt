-- ===== src/TestGen/Prompts.antt =====
-- totalrecall/testgen/prompts: the messages that ask for test cases. `dumps` is `json.dumps` with an
-- indentation of two.
use totalrecall.Common.{ℕ, List, [], ◌∷◌, ◌⊕◌, map, if◌then◌else◌}
use totalrecall.Common.Text.{String, ◌++◌, join, truthy}
use totalrecall.Common.Json.{Json}
use totalrecall.Common.Json
use totalrecall.Generation.Models.{TestType, GenerationRequest, ReformulatedIntent}
use totalrecall.Context.Models.{ContextPlan}
use totalrecall.Providers.Models.{ProviderRole, ProviderMessage}
use totalrecall.Prompts.{new_message}
use totalrecall.Prompts.Builder.{story_lines, guidance_lines, string_schema}
use totalrecall.Validation.{json_texts}

abbrev pub strings_schema : Json
strings_schema =
    Json.obj (Json.field "type" (Json.str "array") (Json.field "items" string_schema Json.end))

abbrev pub test_case_schema : Json
test_case_schema = Json.obj (
    Json.field "type" (Json.str "object") (
      Json.field "required"
        (Json.arr (json_texts ("id" ∷ "type" ∷ "title" ∷ "steps" ∷ "expected_result" ∷ [])))
        (Json.field "properties"
          (Json.obj (
            Json.field "id" string_schema (
              Json.field "type" string_schema (
                Json.field "title" string_schema (
                  Json.field "preconditions" strings_schema (
                    Json.field "steps" strings_schema (
                      Json.field "expected_result" string_schema (
                        Json.field "acceptance_criterion_ref" string_schema
                          (Json.field "tags" strings_schema Json.end)))))))))
          Json.end)))

abbrev pub traceability_schema : Json
traceability_schema = Json.obj (
    Json.field "type" (Json.str "object") (
      Json.field "required" (Json.arr (json_texts ("acceptance_criterion" ∷ "test_case_ids" ∷ [])))
        (Json.field "properties"
          (Json.obj (
            Json.field "acceptance_criterion" string_schema
              (Json.field "test_case_ids" strings_schema Json.end)))
          Json.end)))

unfoldable pub test_case_pack_schema : Json
test_case_pack_schema = Json.obj (
    Json.field "type" (Json.str "object") (
      Json.field "required" (Json.arr (json_texts ("story_summary" ∷ "test_cases" ∷ []))) (
        Json.field "properties"
          (Json.obj (
            Json.field "story_summary" string_schema (
              Json.field "assumptions" strings_schema (
                Json.field "test_cases"
                  (Json.obj (
                    Json.field "type" (Json.str "array")
                      (Json.field "items" test_case_schema Json.end)))
                  (Json.field "traceability_matrix"
                    (Json.obj (
                      Json.field "type" (Json.str "array")
                        (Json.field "items" traceability_schema Json.end)))
                    (Json.field "coverage_summary" string_schema (
                      Json.field "source_jira_key" string_schema
                        (Json.field "test_types_covered" strings_schema Json.end))))))))
          Json.end)))

abbrev pub test_type_text : TestType → String
test_type_text TestType.functional = "functional"
test_type_text TestType.negative = "negative"
test_type_text TestType.edge_case = "edge_case"
test_type_text TestType.api = "api"
test_type_text TestType.regression = "regression"

-- The section of a type of test; it does not look at the story or at the guidance.
unfoldable pub section_lines : TestType → List String
section_lines TestType.functional =
    "### Functional Tests"
    ∷ "Generate positive-path test cases that verify the feature works as specified."
    ∷ "Each test case should map to one acceptance criterion." ∷ []
section_lines TestType.negative =
    "### Negative Tests"
    ∷ "Generate test cases for invalid inputs, boundary violations, and error paths."
    ∷ "Include expected error messages or HTTP status codes where applicable." ∷ []
section_lines TestType.edge_case =
    "### Edge Case Tests"
    ∷ "Generate test cases for boundary values, empty inputs, maximum lengths, and race conditions."
    ∷ []
section_lines TestType.api =
    "### API Tests"
    ∷ "Generate contract-level test cases verifying request/response schema, status codes, and headers."
    ∷ "Include authentication, pagination, and error response tests." ∷ []
section_lines TestType.regression =
    "### Regression Tests"
    ∷ "Generate test cases that guard against regressions in existing behavior."
    ∷ "Focus on previously reported bugs and critical user journeys." ∷ []

abbrev pub sections_lines : List TestType → List String
sections_lines [] = []
sections_lines (t ∷ types) = join "\n" (section_lines t) ∷ "" ∷ sections_lines types

abbrev pub role_intro : String
role_intro =
    "You are TotalRecall, an expert QA engineer specializing in test case design. Your task is to produce comprehensive, structured test cases from the provided story and requirements."

unfoldable pub build_system : (Json → String) → List TestType → String
build_system dumps active_test_types = join "\n" (
    role_intro
    ∷ ""
    ∷ ("## Requested Test Types: " ++ join ", " (map test_type_text active_test_types))
    ∷ ""
    ∷ "## Output Format"
    ∷ ("Respond ONLY with a valid JSON object matching this schema:\n"
        ++ (dumps test_case_pack_schema
            ++ "\n\nDo not include explanations, markdown fences, or any text outside the JSON object."))
    ∷ [])

abbrev pub intent_lines : ReformulatedIntent → List String
intent_lines intent =
    if truthy intent.intent_summary then "## Test Intent" ∷ intent.intent_summary ∷ "" ∷ [] else []

-- `nat_text` is the text of a number.
unfoldable pub build_user :
    (ℕ → String) → GenerationRequest → ContextPlan → ReformulatedIntent → List TestType → String
unfolding story_lines
build_user nat_text request plan intent active_test_types = join "\n" (
    story_lines (λ ac. "- [" ++ (nat_text ac.index ++ ("] " ++ ac.text))) plan.jira_story
    ⊕ guidance_lines plan.rag_chunks
    ⊕ intent_lines intent
    ⊕ sections_lines active_test_types
    ⊕ ("## Additional Requirements" ∷ request.prompt ∷ []))

unfoldable pub build :
    (Json → String)
    → (ℕ → String)
    → GenerationRequest
    → ContextPlan
    → ReformulatedIntent
    → List TestType
    → List ProviderMessage
unfolding build_system build_user
build dumps nat_text request plan intent active_test_types =
    new_message ProviderRole.system (build_system dumps active_test_types)
    ∷ new_message ProviderRole.user (build_user nat_text request plan intent active_test_types)
    ∷ []
