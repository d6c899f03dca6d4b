-- ===== src/Generation/Models.antt =====
-- totalrecall/generation/models.py, testgen/models.py, testgen/jira/models.py and
-- testgen/pack/models.py.
use totalrecall.Common.{ℕ, Bool, true, false, Option, none, List, []}
use totalrecall.Common.Text.{String}
use totalrecall.Common.Dict.{Dict}
use totalrecall.Common.Json.{Json, Float, literal}
use totalrecall.Errors.{ServiceError}

pub data Language : Type 0 where
  python typescript java : Language

pub data Framework : Type 0 where
  playwright pytest junit testng : Framework

pub data AutomationPattern : Type 0 where
  pom : AutomationPattern

pub data LocatorStrategy : Type 0 where
  page_file central_module external_store : LocatorStrategy

pub data ArtifactType : Type 0 where
  page_object test_spec fixture config support : ArtifactType

pub data ValidationStatus : Type 0 where
  not_run passed failed warning : ValidationStatus

pub data GenerationStatus : Type 0 where
  accepted running completed failed : GenerationStatus

pub data TestType : Type 0 where
  functional negative edge_case api regression : TestType

-- The texts of the enumerations.
unfoldable pub language_text : Language → String
language_text python = "python"
language_text typescript = "typescript"
language_text java = "java"

unfoldable pub framework_text : Framework → String
framework_text playwright = "playwright"
framework_text pytest = "pytest"
framework_text junit = "junit"
framework_text testng = "testng"

unfoldable pub artifact_type_text : ArtifactType → String
artifact_type_text page_object = "page_object"
artifact_type_text test_spec = "test_spec"
artifact_type_text fixture = "fixture"
artifact_type_text config = "config"
artifact_type_text support = "support"

unfoldable pub validation_status_text : ValidationStatus → String
validation_status_text not_run = "not_run"
validation_status_text passed = "passed"
validation_status_text ValidationStatus.failed = "failed"
validation_status_text warning = "warning"

-- `==` on the enumerations
unfoldable pub language_eq : Language → Language → Bool
language_eq python python = true
language_eq typescript typescript = true
language_eq java java = true
language_eq _ _ = false

unfoldable pub framework_eq : Framework → Framework → Bool
framework_eq playwright playwright = true
framework_eq pytest pytest = true
framework_eq junit junit = true
framework_eq testng testng = true
framework_eq _ _ = false

unfoldable pub artifact_type_eq : ArtifactType → ArtifactType → Bool
artifact_type_eq page_object page_object = true
artifact_type_eq test_spec test_spec = true
artifact_type_eq fixture fixture = true
artifact_type_eq config config = true
artifact_type_eq support support = true
artifact_type_eq _ _ = false

abbrev pub is_failed : ValidationStatus → Bool
is_failed ValidationStatus.failed = true
is_failed _ = false

abbrev pub is_warning : ValidationStatus → Bool
is_warning warning = true
is_warning _ = false

pub record GenerationTarget : Type 0 where
  pub language : Language
  pub framework : Framework
  pub pattern : AutomationPattern
  pub locator_strategy : LocatorStrategy

pub record GenerationScope : Type 0 where
  pub domain : String
  pub route : Option String
  pub tags : List String

pub record ProviderSelection : Type 0 where
  pub provider_id : String
  pub model : String
  pub fallback_provider_ids : List String

pub record GenerationOptions : Type 0 where
  pub validation_enabled : Bool
  pub allow_repair : Bool
  pub max_input_tokens : ℕ
  pub max_output_tokens : Option ℕ

pub record GenerationRequest : Type 0 where
  pub tenant_id : String
  pub application_id : String
  pub prompt : String
  pub target : GenerationTarget
  pub scope : GenerationScope
  pub provider : ProviderSelection
  pub options : GenerationOptions
  pub jira_key : Option String
  pub test_types : Option (List TestType)

pub record GeneratedArtifact : Type 0 where
  pub path : String
  pub language : Language
  pub content : String
  pub artifact_type : ArtifactType

pub record ValidationDiagnostic : Type 0 where
  pub code : String
  pub message : String
  pub path : Option String
  pub severity : ValidationStatus
  pub details : Dict Json

pub record ValidationSummary : Type 0 where
  pub status : ValidationStatus
  pub diagnostics : List ValidationDiagnostic

pub record GenerationContextMetadata : Type 0 where
  pub context_plan_id : Option String
  pub skill_ids : List String
  pub memory_ids : List String
  pub estimated_input_tokens : ℕ
  pub baseline_input_tokens : ℕ
  pub estimated_tokens_saved : ℕ
  pub token_savings_percent : Float
  pub excluded_memory_count : ℕ
  pub max_input_tokens : ℕ

-- The metadata of a result that is given none.
abbrev pub no_context : GenerationContextMetadata
no_context = record {
  context_plan_id = none;
  skill_ids = [];
  memory_ids = [];
  estimated_input_tokens = 0;
  baseline_input_tokens = 0;
  estimated_tokens_saved = 0;
  token_savings_percent = literal "0.0";
  excluded_memory_count = 0;
  max_input_tokens = 0;
}

pub record TestCase : Type 0 where
  pub id : String
  pub type : TestType
  pub title : String
  pub preconditions : List String
  pub steps : List String
  pub expected_result : String
  pub acceptance_criterion_ref : Option String
  pub tags : List String

pub record TraceabilityEntry : Type 0 where
  pub acceptance_criterion : String
  pub test_case_ids : List String

pub record TestCasePack : Type 0 where
  pub story_summary : String
  pub assumptions : List String
  pub test_cases : List TestCase
  pub traceability_matrix : List TraceabilityEntry
  pub coverage_summary : String
  pub generated_at : String
  pub source_jira_key : Option String
  pub test_types_covered : List TestType

pub record GenerationResult : Type 0 where
  pub request_id : String
  pub status : GenerationStatus
  pub artifacts : List GeneratedArtifact
  pub validation : ValidationSummary
  pub context : GenerationContextMetadata
  pub errors : List ServiceError
  pub test_case_pack : Option TestCasePack

pub record ReformulatedIntent : Type 0 where
  pub jira_key : Option String
  pub intent_summary : String
  pub test_types : List TestType
  pub output_format : String
  pub raw_prompt : String
  pub confidence : Float

pub record JiraAcceptanceCriterion : Type 0 where
  pub index : ℕ
  pub text : String

pub record JiraStory : Type 0 where
  pub jira_key : String
  pub summary : String
  pub description : String
  pub acceptance_criteria : List JiraAcceptanceCriterion
  pub story_type : String
  pub status : String
  pub labels : List String
  pub fetched_at : String

pub record RagChunk : Type 0 where
  pub chunk_id : String
  pub source_ref : String
  pub chunk_text : String
  pub similarity : Float
  pub metadata : Dict Json
