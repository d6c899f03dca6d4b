-- ===== src/Observability.antt =====
-- totalrecall/observability/metrics.py: the counters of the pipeline. `percent` rounds a share to two
-- decimals. The lock makes each call one step.
use totalrecall.Common.{ℕ, zero, suc, ◌+◌, Bool, Option, if◌then◌else◌}
use totalrecall.Common.Text.{String, ◌==◌}
use totalrecall.Common.Json.{Float, literal}

pub record GenerationMetrics : Type 0 where
  pub generations_total : ℕ
  pub generations_completed : ℕ
  pub generations_failed : ℕ
  pub generations_repaired : ℕ
  pub validation_passed : ℕ
  pub validation_failed : ℕ
  pub validation_not_run : ℕ
  pub input_tokens_total : ℕ
  pub output_tokens_total : ℕ
  pub estimated_tokens_saved_total : ℕ
  pub last_context_plan_id : Option String
  pub last_estimated_input_tokens : ℕ
  pub last_baseline_input_tokens : ℕ
  pub last_estimated_tokens_saved : ℕ
  pub last_token_savings_percent : Float
  pub last_selected_skill_count : ℕ
  pub last_selected_memory_count : ℕ
  pub last_excluded_memory_count : ℕ
  pub last_max_input_tokens : ℕ

-- The arguments of `record_generation`.
pub record Generated : Type 0 where
  pub completed : Bool
  pub repaired : Bool
  pub input_tokens : ℕ
  pub output_tokens : ℕ
  pub estimated_tokens_saved : ℕ
  pub context_plan_id : Option String
  pub baseline_input_tokens : ℕ
  pub selected_skill_count : ℕ
  pub selected_memory_count : ℕ
  pub excluded_memory_count : ℕ
  pub max_input_tokens : ℕ

unfoldable pub record_generation :
    (ℕ → ℕ → Float) → Generated → GenerationMetrics → GenerationMetrics
record_generation percent g m = record {
  generations_total = m.generations_total + 1;
  generations_completed =
      if g.completed then m.generations_completed + 1 else m.generations_completed;
  generations_failed = if g.completed then m.generations_failed else m.generations_failed + 1;
  generations_repaired = if g.repaired then m.generations_repaired + 1 else m.generations_repaired;
  validation_passed = m.validation_passed;
  validation_failed = m.validation_failed;
  validation_not_run = m.validation_not_run;
  input_tokens_total = m.input_tokens_total + g.input_tokens;
  output_tokens_total = m.output_tokens_total + g.output_tokens;
  estimated_tokens_saved_total = m.estimated_tokens_saved_total + g.estimated_tokens_saved;
  last_context_plan_id = g.context_plan_id;
  last_estimated_input_tokens = g.input_tokens;
  last_baseline_input_tokens = g.baseline_input_tokens;
  last_estimated_tokens_saved = g.estimated_tokens_saved;
  last_token_savings_percent = elim g.baseline_input_tokens [
    | zero ↦ literal "0.0"
    | suc n ↦ percent g.estimated_tokens_saved (suc n)
  ];
  last_selected_skill_count = g.selected_skill_count;
  last_selected_memory_count = g.selected_memory_count;
  last_excluded_memory_count = g.excluded_memory_count;
  last_max_input_tokens = g.max_input_tokens;
}

-- Every status but the two counts as not run.
unfoldable pub record_validation : String → GenerationMetrics → GenerationMetrics
record_validation status m =
    if status == "passed"
    then record m { validation_passed = m.validation_passed + 1 }
    else (if status == "failed"
        then record m { validation_failed = m.validation_failed + 1 }
        else record m { validation_not_run = m.validation_not_run + 1 })
