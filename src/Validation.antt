-- ===== src/Validation.antt =====
-- totalrecall/validation/coordinator.py: the checks of generated artifacts and their overall status.
pub mod Worker
pub mod Passed
pub mod Failing
mod Examples
use totalrecall.Common.{
  Bool, true, false, ◌&&◌, ◌||◌, not, Option, none, some, List, [], ◌∷◌, map, filter, any, is_empty,
  if◌then◌else◌, ◌⊕◌,
}
use totalrecall.Common.Text.{String, ◌++◌, ◌==◌, includes, sorted}
use totalrecall.Common.Dict.{Dict}
use totalrecall.Common.Json.{Json}
use totalrecall.Common.Json
use totalrecall.Common.Outcome.{Outcome, ok, raise, Exception, exception_text, ◌>>=◌}
use totalrecall.Generation.Models.{
  Language, ArtifactType, ValidationStatus, GeneratedArtifact, ValidationDiagnostic,
  ValidationSummary, artifact_type_eq, artifact_type_text, language_eq, framework_eq, is_failed,
  is_warning, Framework,
}
use totalrecall.Skills.{SkillDefinition, SkillValidator, SkillValidatorType}

-- The diagnostic without a path and without details.
abbrev pub diagnostic : String → String → ValidationStatus → ValidationDiagnostic
diagnostic code message severity = record {
  code = code;
  message = message;
  path = none;
  severity = severity;
  details = [];
}

abbrev pub diagnostic_at : String → String → String → ValidationStatus → ValidationDiagnostic
diagnostic_at code message path severity = record (diagnostic code message severity) {
  path = some path;
}

-- A summary that was not computed, `ValidationSummary(status=ValidationStatus.NOT_RUN)`.
abbrev pub not_run_summary : ValidationSummary
not_run_summary = record { status = ValidationStatus.not_run; diagnostics = [] }

abbrev pub is_structure : SkillValidator → Bool
is_structure v = elim v.type [ SkillValidatorType.structure ↦ true | _ ↦ false ]

-- `t in types`, and the set of the types in a list.
unfoldable pub has_type : ArtifactType → List ArtifactType → Bool
has_type t [] = false
has_type t (u ∷ types) = artifact_type_eq t u || has_type t types

unfoldable pub type_set : List ArtifactType → List ArtifactType
unfolding has_type
type_set [] = []
type_set (t ∷ types) = let rest = type_set types in if has_type t rest then rest else t ∷ rest

unfoldable pub json_texts : List String → Json.Items
json_texts [] = Json.nil
json_texts (s ∷ rest) = Json.cons (Json.str s) (json_texts rest)

abbrev pub artifact_types : List GeneratedArtifact → List ArtifactType
artifact_types = map (λ a. a.artifact_type)

abbrev pub missing_type : List GeneratedArtifact → ArtifactType → ValidationDiagnostic
missing_type artifacts missing =
    record (diagnostic "MISSING_ARTIFACT_TYPE"
      ("Expected artifact of type '" ++ (artifact_type_text missing ++ "' but none was generated"))
      ValidationStatus.warning) {
        details =
            ("required_type", Json.str (artifact_type_text missing))
            ∷ (
              "produced_types",
              Json.arr (
                  json_texts
                    (sorted (map artifact_type_text (type_set (artifact_types artifacts))))),
            )
            ∷ [];
      }

-- The diagnostic of the first artifact that passes the test.
unfoldable pub report_first :
    (GeneratedArtifact → Bool)
    → (GeneratedArtifact → ValidationDiagnostic)
    → List GeneratedArtifact
    → List ValidationDiagnostic
report_first p report [] = []
report_first p report (a ∷ artifacts) =
    let rest = report_first p report artifacts in if p a then report a ∷ [] else rest

abbrev pub typed : ArtifactType → List GeneratedArtifact → List GeneratedArtifact
typed t = filter (λ a. artifact_type_eq a.artifact_type t)

abbrev pub in_language : Language → List GeneratedArtifact → List GeneratedArtifact
in_language l = filter (λ a. language_eq a.language l)

abbrev pub class_missing : GeneratedArtifact → ValidationDiagnostic
class_missing a =
    diagnostic_at "POM_CLASS_MISSING" ("Page object '" ++ (a.path ++ "' must define a class"))
      a.path ValidationStatus.failed

abbrev pub tests_missing : GeneratedArtifact → ValidationDiagnostic
tests_missing a =
    diagnostic_at "NO_TEST_FUNCTIONS"
      ("Test spec '" ++ (a.path ++ "' must define at least one test_ function")) a.path
      ValidationStatus.failed

abbrev pub constructor_missing : GeneratedArtifact → ValidationDiagnostic
constructor_missing a =
    diagnostic_at "CONSTRUCTOR_MISSING"
      ("Playwright page object '" ++ (a.path ++ "' should define a constructor with locators"))
      a.path ValidationStatus.warning

abbrev pub fixture_missing : ValidationDiagnostic
fixture_missing =
    diagnostic "FIXTURE_MISSING" "Pytest skill requires at least one fixture artifact"
      ValidationStatus.warning

-- The parser's `SyntaxError`.
pub record SyntaxFailure : Type 0 where
  pub msg : String
  pub lineno : Json
  pub offset : Json

abbrev pub python_error : GeneratedArtifact → SyntaxFailure → ValidationDiagnostic
python_error a e =
    record (diagnostic_at "PYTHON_SYNTAX_ERROR"
      ("Python syntax error in '" ++ (a.path ++ ("': " ++ e.msg))) a.path ValidationStatus.failed) {
        details = ("line", e.lineno) ∷ ("offset", e.offset) ∷ [];
      }

abbrev pub java_warning : GeneratedArtifact → ValidationDiagnostic
java_warning a =
    diagnostic_at "JAVA_VALIDATION_NOT_SUPPORTED"
      ("Java artifact '"
        ++ (a.path
            ++ "' cannot be validated without the JVM worker. Validation deferred — artifact may still be syntactically valid."))
      a.path ValidationStatus.warning

unfoldable pub check_java_syntax : List GeneratedArtifact → List ValidationDiagnostic
check_java_syntax artifacts = map java_warning (in_language Language.java artifacts)

abbrev pub no_artifacts : ValidationSummary
no_artifacts = record {
  status = ValidationStatus.failed;
  diagnostics =
      diagnostic "NO_ARTIFACTS" "Generation produced no artifacts" ValidationStatus.failed ∷ [];
}

abbrev pub failing : ValidationDiagnostic → Bool
failing d = is_failed d.severity

abbrev pub warned : ValidationDiagnostic → Bool
warned d = is_warning d.severity

-- The status of the list of diagnostics.
unfoldable pub overall : List ValidationDiagnostic → ValidationStatus
overall diagnostics =
    if any failing diagnostics
    then ValidationStatus.failed
    else (if any warned diagnostics then ValidationStatus.warning else ValidationStatus.passed)

-- `PlaywrightValidationWorker.validate`, over the state of the world.
abbrev pub PlaywrightValidationWorker : Type 0 → Type 0
PlaywrightValidationWorker W = List GeneratedArtifact → W → Outcome ValidationSummary × W

unfoldable pub worker_diagnostics : Outcome ValidationSummary → List ValidationDiagnostic
worker_diagnostics (raise e) =
    diagnostic "TYPESCRIPT_WORKER_ERROR"
      ("Playwright validation worker raised an unexpected error: " ++ exception_text e)
      ValidationStatus.warning
    ∷ []
worker_diagnostics (ok summary) =
    if is_failed summary.status && is_empty summary.diagnostics
    then (diagnostic "TYPESCRIPT_WORKER_FAILED"
          "Playwright validation worker reported failure without diagnostics"
          ValidationStatus.failed
        ∷ [])
    else summary.diagnostics

-- `set_order` lists a set in the order in which Python runs through it, `has_class` is the search for
-- the pattern of a class, and `parse_python` is `ast.parse`: it accepts, fails with a `SyntaxError`,
-- or raises something else.
module _ (set_order : List ArtifactType → List ArtifactType) (has_class : String → Bool)
    (parse_python : String → Outcome (Option SyntaxFailure)) where
  unfoldable pub check_rule : String → List GeneratedArtifact → List ValidationDiagnostic
  unfolding report_first
  check_rule rule artifacts =
      if rule == "page_object_class_required"
      then report_first (λ a. not (has_class a.content)) class_missing
          (typed ArtifactType.page_object artifacts)
      else (if rule == "pytest_test_functions_required"
          then report_first (λ a. not (includes "def test_" a.content)) tests_missing
              (typed ArtifactType.test_spec artifacts)
          else (if rule == "locator_in_constructor_required"
              then report_first
                  (λ a.
                    language_eq a.language Language.typescript
                    && not (includes "constructor" a.content))
                  constructor_missing (typed ArtifactType.page_object artifacts)
              else (if rule == "fixture_required" && is_empty (typed ArtifactType.fixture artifacts)
                  then fixture_missing ∷ []
                  else [])))

  unfoldable pub check_rules : List String → List GeneratedArtifact → List ValidationDiagnostic
  check_rules [] artifacts = []
  check_rules (rule ∷ rules) artifacts = check_rule rule artifacts ⊕ check_rules rules artifacts

  unfoldable pub check_validators :
      List SkillValidator → List GeneratedArtifact → List ValidationDiagnostic
  check_validators [] artifacts = []
  check_validators (v ∷ validators) artifacts =
      check_rules v.rules artifacts ⊕ check_validators validators artifacts

  abbrev pub required_types : SkillDefinition → List ArtifactType
  required_types skill = type_set (map (λ f. f.artifact_type) skill.output_files)

  -- `required_types - artifact_types`
  abbrev pub missing_types : SkillDefinition → List GeneratedArtifact → List ArtifactType
  missing_types skill artifacts =
      filter (λ t. not (has_type t (artifact_types artifacts))) (required_types skill)

  unfoldable pub check_structure :
      List GeneratedArtifact → Option SkillDefinition → List ValidationDiagnostic
  check_structure artifacts none = []
  check_structure artifacts (some skill) =
      let validators = filter is_structure skill.validators in
      if is_empty validators
      then []
      else (map (missing_type artifacts) (set_order (missing_types skill artifacts))
          ⊕ check_validators validators artifacts)

  -- The loop over the Python artifacts: only a `SyntaxError` is caught.
  unfoldable pub parse_each : List GeneratedArtifact → Outcome (List ValidationDiagnostic)
  parse_each [] = ok []
  parse_each (a ∷ artifacts) = elim (parse_python a.content) [
    | raise e ↦ raise e
    | ok (some e) ↦ (do rest ← parse_each artifacts; ok (python_error a e ∷ rest))
    | ok none ↦ parse_each artifacts
  ]

  unfoldable pub check_python_syntax : List GeneratedArtifact → Outcome (List ValidationDiagnostic)
  unfolding parse_each
  check_python_syntax artifacts = parse_each (in_language Language.python artifacts)

  module _ {W : Type 0} (worker : Option (PlaywrightValidationWorker W)) where
    unfoldable pub check_playwright_worker :
        List GeneratedArtifact → Option SkillDefinition → W → List ValidationDiagnostic × W
    unfolding worker_diagnostics
    check_playwright_worker artifacts skill w = elim worker [
      | none ↦ ([], w)
      | some validate ↦ elim skill [
        | none ↦ ([], w)
        | some s ↦
            if not (language_eq s.language Language.typescript)
              || not (framework_eq s.framework Framework.playwright)
              || is_empty (in_language Language.typescript artifacts)
            then ([], w)
            else (let (outcome, w') = validate (in_language Language.typescript artifacts) w in
                (worker_diagnostics outcome, w'))
      ]
    ]

    unfoldable pub validate :
        List GeneratedArtifact → Option SkillDefinition → W → Outcome ValidationSummary × W
    unfolding check_playwright_worker check_python_syntax
    validate [] skill w = (ok no_artifacts, w)
    validate (a ∷ rest) skill w =
        let artifacts = a ∷ rest in
        elim (check_python_syntax artifacts) [
          | raise e ↦ (raise e, w)
          | ok python ↦
              let (worker_found, w') = check_playwright_worker artifacts skill w in
              let diagnostics =
                check_structure artifacts skill
                ⊕ python
                ⊕ check_java_syntax artifacts
                ⊕ worker_found in
              (ok (record { status = overall diagnostics; diagnostics = diagnostics }), w')
        ]
