-- ===== src/Context.antt =====
-- totalrecall/context: the plan of what goes into a prompt. The metadata extractor and the memory
-- search are given to the planner when it is made; here they are arguments, the search over the state
-- `W` of the memory wrapper.
pub mod Models
pub mod Budget
pub mod Plans
mod Examples
use totalrecall.Common.{
  ℕ, ◌+◌, ◌-◌, ◌*◌, Bool, true, false, Option, none, some, List, [], ◌∷◌, ◌++◌, map, length,
  if◌then◌else◌,
}
use totalrecall.Common.Text.{String, join, truthy, word_count}
use totalrecall.Common.Text
use totalrecall.Common.Dict.{Dict}
use totalrecall.Common.Int.{ℤ, pos, sub_ℕ, gtb_ℤ}
use totalrecall.Common.Json.{Json, int, str, literal}
use totalrecall.Common.Outcome.{Outcome, ok, raise}
use totalrecall.Generation.Models.{
  GenerationRequest, JiraStory, RagChunk, language_text, framework_text,
}
use totalrecall.Skills.{SkillDefinition, SkillRegistry, select}
use totalrecall.Memory.Models.{MemoryEntry, MemorySearchRequest, MemorySearchResult}
use totalrecall.Context.Models.{
  ContextExclusion, framework_mismatch, token_budget, TokenBudget, SelectedSkill, SelectedMemory,
  ContextPlan, RequestMetadata, ExternalPlanInputs,
}

abbrev pub tokens_per_rule : ℕ
tokens_per_rule = 20

abbrev pub tokens_per_memory : ℕ
tokens_per_memory = 60

abbrev pub system_overhead_tokens : ℕ
system_overhead_tokens = 300

-- What `_select_skills` and `_select_memories` return.
pub record SkillSelection : Type 0 where
  pub selected : List SelectedSkill
  pub exclusions : List ContextExclusion
  pub tokens : ℕ

pub record MemorySelection : Type 0 where
  pub selected : List SelectedMemory
  pub exclusions : List ContextExclusion
  pub tokens : ℕ

abbrev pub no_memories : MemorySelection
no_memories = record { selected = []; exclusions = []; tokens = 0 }

unfoldable pub select_skills : SkillRegistry → GenerationRequest → SkillSelection
unfolding select language_text framework_text
select_skills skills request =
    let language = language_text request.target.language in
    let framework = framework_text request.target.framework in
    elim (select skills request.target.language request.target.framework) [
      | none ↦ record {
        selected = [];
        exclusions =
            record {
              entity_id = Text.◌++◌ framework (Text.◌++◌ ":" language);
              reason = framework_mismatch;
              details = ("language", str language) ∷ ("framework", str framework) ∷ [];
            }
            ∷ [];
        tokens = 0;
      }
      | some skill ↦ record {
        selected =
            record {
              skill_id = skill.skill_id;
              version = skill.version;
              reason = some (
                  Text.◌++◌ "Matched " (
                    Text.◌++◌ (framework_text skill.framework)
                      (Text.◌++◌ "/" (language_text skill.language))));
            }
            ∷ [];
        exclusions = [];
        tokens = length skill.generation_rules * tokens_per_rule;
      }
    ]

abbrev pub selected_memory : MemoryEntry → SelectedMemory
selected_memory entry = record {
  memory_id = entry.entity_id;
  confidence = literal "1.0";
  reason = some "domain/route match";
}

abbrev pub over_budget : ℤ → ℕ → MemoryEntry → ContextExclusion
over_budget budget tokens_used entry = record {
  entity_id = entry.entity_id;
  reason = token_budget;
  details =
      ("tokens_used", int (pos tokens_used))
      ∷ ("cost", int (pos tokens_per_memory))
      ∷ ("budget", int budget)
      ∷ [];
}

-- The loop over the entries found, with the tokens used so far.
unfoldable pub select_entries : ℤ → ℕ → List MemoryEntry → MemorySelection
select_entries budget tokens_used [] = record {
  selected = [];
  exclusions = [];
  tokens = tokens_used;
}
select_entries budget tokens_used (entry ∷ entries) =
    let over = gtb_ℤ (tokens_used + tokens_per_memory) budget in
    let rest =
      select_entries budget (if over then tokens_used else tokens_used + tokens_per_memory)
        entries in
    if over
    then record rest { exclusions = over_budget budget tokens_used entry ∷ rest.exclusions }
    else record rest { selected = selected_memory entry ∷ rest.selected }

-- The request for the search; its limit is the default of the model.
unfoldable pub memory_request : GenerationRequest → RequestMetadata → MemorySearchRequest
unfolding join truthy
memory_request request metadata = record {
  tenant_id = request.tenant_id;
  application_id = request.application_id;
  query = join " " (request.prompt ∷ metadata.test_intent);
  filters = ("domain", str metadata.domain) ∷ elim metadata.route [
    | none ↦ []
    | some route ↦ if truthy route then ("route", str route) ∷ [] else []
  ];
  limit = 10;
}

-- A search that raises leaves the plan without memories.
abbrev pub from_search : ℤ → Outcome MemorySearchResult → MemorySelection
from_search budget (raise e) = no_memories
from_search budget (ok result) = select_entries budget 0 result.items

abbrev pub skill_tokens : SkillRegistry → GenerationRequest → ℕ
skill_tokens skills request = (select_skills skills request).tokens

-- `max_input_tokens - overhead - skill_tokens`, which may be negative
abbrev pub remaining : SkillRegistry → GenerationRequest → ℤ
remaining skills request =
    sub_ℕ request.options.max_input_tokens (system_overhead_tokens + skill_tokens skills request)

-- The plan, once its parts are chosen.
abbrev pub assemble :
    String
    → GenerationRequest
    → String
    → ExternalPlanInputs
    → SkillSelection
    → MemorySelection
    → ContextPlan
assemble context_plan_id request request_id inputs chosen memories =
    let prompt_tokens = word_count request.prompt in
    let optimized = system_overhead_tokens + prompt_tokens + chosen.tokens + memories.tokens in
    let candidate_memory_tokens =
      memories.tokens + length memories.exclusions * tokens_per_memory in
    let baseline =
      system_overhead_tokens + prompt_tokens + chosen.tokens + candidate_memory_tokens in
    record {
      context_plan_id = context_plan_id;
      tenant_id = request.tenant_id;
      application_id = request.application_id;
      request_id = request_id;
      selected_skills = chosen.selected;
      selected_memories = memories.selected;
      skill_ids = map (λ s. s.skill_id) chosen.selected;
      memory_ids = map (λ m. m.memory_id) memories.selected;
      excluded = chosen.exclusions ++ memories.exclusions;
      token_budget = record {
        max_input_tokens = request.options.max_input_tokens;
        estimated_input_tokens = optimized;
        baseline_estimate = baseline;
        estimated_tokens_saved = baseline - optimized;
      };
      feature_flags = [];
      provider_metadata = [];
      jira_story = inputs.jira_story;
      rag_chunks = inputs.rag_chunks;
    }

module _ {W : Type 0} (search : MemorySearchRequest → W → Outcome MemorySearchResult × W) where
  unfoldable pub select_memories : GenerationRequest → RequestMetadata → ℤ → W → MemorySelection × W
  select_memories request metadata budget w =
      let (result, w') = search (memory_request request metadata) w in
      (from_search budget result, w')

  module _ (extract : GenerationRequest → RequestMetadata) (skills : SkillRegistry) where
    -- The fresh identifier is an argument; absent inputs are the record of their defaults.
    unfoldable pub plan :
        String → GenerationRequest → String → ExternalPlanInputs → W → ContextPlan × W
    unfolding select_memories
    plan context_plan_id request request_id inputs w =
        let (memories, w') =
          select_memories request (extract request) (remaining skills request) w in
        (
          assemble context_plan_id request request_id inputs (select_skills skills request)
              memories,
          w',
        )
