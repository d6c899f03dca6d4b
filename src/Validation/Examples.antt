-- ===== src/Validation/Examples.antt =====
-- totalrecall/validation: a passing validation, and a worker that is not there.
use totalrecall.Common.{
  Bool, false, Option, none, some, List, [], ◌∷◌, is_empty, All, ◌≡◌, refl, ℕ, suc,
}
use totalrecall.Common.Text.{String, includes}
use totalrecall.Common.Int.{ℤ}
use totalrecall.Common.Outcome.{Outcome, ok, raise, value_error}
use totalrecall.Generation.Models.{
  Language, Framework, AutomationPattern, ArtifactType, ValidationStatus, GeneratedArtifact,
  ValidationSummary, language_eq, artifact_type_eq,
}
use totalrecall.Skills.{SkillDefinition, SkillStatus, SkillValidatorType}
use totalrecall.Validation.{
  SyntaxFailure, in_language, validate, overall, check_structure, type_set, check_validators,
  check_rules, check_rule, check_java_syntax,
}
use totalrecall.Validation.Passed.{Parses, demanded_missing, validate-vouches}
use totalrecall.Validation.Worker.{
  SubprocessPlaywrightWorkerClient, PlaywrightWorkerRequest, PlaywrightWorkerResponse, Subprocess,
  file_not_found,
}
use totalrecall.Validation.Failing.{verdict, worker_of, validate-trouble}

abbrev same_order : List ArtifactType → List ArtifactType
same_order types = types

abbrev has_class : String → Bool
has_class text = includes "class " text

abbrev accept : String → Outcome (Option SyntaxFailure)
accept text = ok none

abbrev test_spec : GeneratedArtifact
test_spec = record {
  path = "tests/test_login.py";
  language = Language.python;
  content = "def test_login(): pass";
  artifact_type = ArtifactType.test_spec;
}

abbrev page : GeneratedArtifact
page = record {
  path = "pages/login.ts";
  language = Language.typescript;
  content = "export class Login { constructor() {} }";
  artifact_type = ArtifactType.page_object;
}

abbrev skill_in : Language → Framework → ArtifactType → List String → SkillDefinition
skill_in language framework artifact_type rules = record {
  skill_id = "skill";
  version = "1.0.0";
  language = language;
  framework = framework;
  pattern = AutomationPattern.pom;
  supported_locator_strategies = [];
  output_files =
      record { artifact_type = artifact_type; path_template = "t"; template_ref = "r" } ∷ [];
  generation_rules = [];
  validators = record { type = SkillValidatorType.structure; command = none; rules = rules } ∷ [];
  status = SkillStatus.active;
  owner = none;
  description = none;
}

abbrev pytest_skill : SkillDefinition
pytest_skill =
    skill_in Language.python Framework.pytest ArtifactType.test_spec
      ("pytest_test_functions_required" ∷ [])

abbrev playwright_skill : SkillDefinition
playwright_skill =
    skill_in Language.typescript Framework.playwright ArtifactType.page_object
      ("page_object_class_required" ∷ "locator_in_constructor_required" ∷ [])

abbrev passed_summary : ValidationSummary
passed_summary = record { status = ValidationStatus.passed; diagnostics = [] }

-- A run over a Python test that has a test function.
validate_run :
    (validate same_order has_class accept {W = Unit} none (test_spec ∷ []) (some pytest_skill) tt).0
    ≡ ok passed_summary
unfolding validate language_eq overall check_structure type_set artifact_type_eq check_validators
    check_rules check_rule includes check_java_syntax
validate_run = refl

validate-vouches_example :
    (is_empty (test_spec ∷ []) ≡ false)
    × All (Parses same_order has_class accept) (in_language Language.python (test_spec ∷ []))
    × (in_language Language.java (test_spec ∷ []) ≡ [])
    × (demanded_missing same_order has_class accept (test_spec ∷ []) (some pytest_skill) ≡ [])
validate-vouches_example =
    validate-vouches same_order has_class accept {W = Unit} none (test_spec ∷ [])
      (some pytest_skill) tt passed_summary (λ types. refl) validate_run refl

abbrev no_text : ℤ → String
no_text n = ""

abbrev fresh : ℕ → String × ℕ
fresh w = ("1", suc w)

abbrev dump : PlaywrightWorkerRequest → String
dump request = request.request_id

abbrev unreadable : String → Outcome PlaywrightWorkerResponse
unreadable text = raise (value_error "no answer")

abbrev no_node : List String → String → ℕ → Option String → ℕ → Subprocess × ℕ
no_node command payload timeout_seconds cwd w = (file_not_found "node", w)

abbrev client : SubprocessPlaywrightWorkerClient
client = record { command = "node" ∷ "worker.js" ∷ []; timeout_seconds = 10; cwd = none }

validate-trouble_example :
    verdict (
      validate same_order has_class accept
        (some (worker_of no_text fresh dump unreadable no_node same_order has_class accept client))
        (page ∷ [])
        (some playwright_skill)
        0)
    ≡ verdict
        (validate same_order has_class accept {W = ℕ} none (page ∷ []) (some playwright_skill) 0)
validate-trouble_example =
    validate-trouble no_text fresh dump unreadable no_node same_order has_class accept client
      (page ∷ []) (some playwright_skill) 0 refl
