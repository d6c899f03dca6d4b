-- ===== src/Learning/Run.antt =====
-- totalrecall/learning/runner.py and classifier.py. The scan of the files, the extraction of
-- patterns, the redaction, the MD5 digest, the identifiers and the times are arguments.
use totalrecall.Common.{
  ℕ, suc, Bool, true, false, Option, none, some, List, [], ◌∷◌, map, count, if◌then◌else◌,
}
use totalrecall.Common
use mathlib.Core.Option
use totalrecall.Common.Text.{String, ◌++◌, ◌==◌}
use totalrecall.Common.Dict
use totalrecall.Common.Dict.{Dict}
use totalrecall.Common.Json.{str, literal}
use totalrecall.Learning.Models.{
  LearningTriggerType, LearningRunStatus, LearningDiscoveryType, static_skill_candidate,
  dynamic_memory, catalogue_reference, LearningDiscoveryStatus, LearningDeltaState, new, changed,
  unchanged, delta_state_eq, LearningScope, LearningDiscovery, LearningReport,
}

-- `ScannedFile` of learning/scanner.py, `ExtractedPattern` of learning/parser.py
pub record ScannedFile : Type 0 where
  pub path : String
  pub content : String
  pub content_hash : String
  pub language : String

pub record ExtractedPattern : Type 0 where
  pub pattern_type : String
  pub name : String
  pub source_excerpt : String
  pub file_path : String
  pub start_line : ℕ
  pub language : String

unfoldable pub type_map : Dict LearningDiscoveryType
type_map =
    ("page_object_class", static_skill_candidate)
    ∷ ("fixture_function", dynamic_memory)
    ∷ ("test_function", catalogue_reference)
    ∷ ("utility_class", catalogue_reference)
    ∷ []

unfoldable pub classify : ExtractedPattern → LearningDiscoveryType
unfolding type_map Dict.get_or
classify pattern = Dict.get_or type_map pattern.pattern_type catalogue_reference

abbrev pub stable_key : ExtractedPattern → String
stable_key pattern = pattern.file_path ++ ("::" ++ pattern.name)

-- The comparison with the hash of the previous run.
abbrev pub delta_state : Option String → String → LearningDeltaState
delta_state none content_hash = new
delta_state (some prev_hash) content_hash = if prev_hash == content_hash then unchanged else changed

abbrev pub state_count : LearningDeltaState → List LearningDiscovery → ℕ
state_count state discoveries = count (λ d. delta_state_eq d.delta.state state) discoveries

-- The patterns of all files, each with the language of its file, in the order of the two loops.
abbrev pub patterns_of :
    (String → String → String → List ExtractedPattern)
    → List ScannedFile
    → List (String × ExtractedPattern)
patterns_of extract_patterns [] = []
patterns_of extract_patterns (file ∷ files) =
    Common.◌++◌
      (map (λ p. (file.language, p)) (extract_patterns file.content file.path file.language))
      (patterns_of extract_patterns files)

-- `strip` is the stripping of texts in every `ContractModel`, from which their literal texts are left
-- out. File paths and identifiers are not blank, so that no model refuses its fields.
module _ (redact : String → String × List String) (md5 : String → String)
    (strip : String → String) where
  abbrev pub content_hash : ExtractedPattern → String
  content_hash pattern = md5 (pattern.pattern_type ++ ("::" ++ (redact pattern.source_excerpt).0))

  -- The body of the loops; `discovery_id` is the fresh identifier.
  abbrev pub discovery : Dict String → String → String × ExtractedPattern → LearningDiscovery
  discovery previous_hashes discovery_id (language, pattern) =
      let prev_hash = Dict.get previous_hashes (stable_key pattern) in
      record {
        discovery_id = strip discovery_id;
        discovery_type = classify pattern;
        status = LearningDiscoveryStatus.discovered;
        delta = record {
          state = delta_state prev_hash (content_hash pattern);
          previous_hash = Option.map strip prev_hash;
          current_hash = some (strip (content_hash pattern));
          changed_fields = [];
        };
        summary =
            strip (pattern.pattern_type ++ (": " ++ (pattern.name ++ (" (" ++ (language ++ ")")))));
        confidence = literal "1.0";
        source = record {
          type = "file_scan";
          reference = strip pattern.file_path;
          file_path = some (strip pattern.file_path);
          symbol_name = some (strip pattern.name);
          commit_id = none;
          scan_id = none;
        };
        proposed_tags =
            ("pattern_type", str pattern.pattern_type)
            ∷ ("language", str pattern.language)
            ∷ ("file", str pattern.file_path)
            ∷ [];
        approval = none;
        warnings = map strip (redact pattern.source_excerpt).1;
      }

  -- `fresh n` is the identifier of the n-th discovery.
  unfoldable pub discover :
      Dict String → (ℕ → String) → ℕ → List (String × ExtractedPattern) → List LearningDiscovery
  discover previous_hashes fresh n [] = []
  discover previous_hashes fresh n (pattern ∷ patterns) =
      discovery previous_hashes (fresh n) pattern ∷ discover previous_hashes fresh (suc n) patterns

  abbrev pub redaction_warnings : List (String × ExtractedPattern) → List String
  redaction_warnings [] = []
  redaction_warnings (pattern ∷ patterns) =
      Common.◌++◌ (redact pattern.1.source_excerpt).1 (redaction_warnings patterns)

  -- `files` is the scan, or none when the path does not exist.
  unfoldable pub run_learning :
      (String → String → String → List ExtractedPattern)
      → (ℕ → String)
      → String
      → String
      → String
      → String
      → LearningScope
      → Dict String
      → LearningTriggerType
      → String
      → Option (List ScannedFile)
      → LearningReport
  run_learning extract_patterns fresh run_id started_at tenant_id application_id scope
        previous_hashes trigger_type completed_at none =
      record {
        run = record {
          run_id = strip run_id;
          tenant_id = strip tenant_id;
          application_id = strip application_id;
          scope = scope;
          trigger_type = trigger_type;
          status = LearningRunStatus.failed;
          discoveries = [];
          started_at = started_at;
          completed_at = some completed_at;
        };
        discovered_count = 0;
        changed_count = 0;
        removed_count = 0;
        unchanged_count = 0;
        rejected_count = 0;
        warnings = strip ("Scope path does not exist: " ++ scope.path) ∷ [];
      }
  run_learning extract_patterns fresh run_id started_at tenant_id application_id scope
        previous_hashes trigger_type completed_at (some files) =
      let discoveries = discover previous_hashes fresh 0 (patterns_of extract_patterns files) in
      record {
        run = record {
          run_id = strip run_id;
          tenant_id = strip tenant_id;
          application_id = strip application_id;
          scope = scope;
          trigger_type = trigger_type;
          status = LearningRunStatus.completed;
          discoveries = discoveries;
          started_at = started_at;
          completed_at = some completed_at;
        };
        discovered_count = state_count new discoveries;
        changed_count = state_count changed discoveries;
        removed_count = 0;
        unchanged_count = state_count unchanged discoveries;
        rejected_count = 0;
        warnings = map strip (redaction_warnings (patterns_of extract_patterns files));
      }
