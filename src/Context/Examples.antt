-- ===== src/Context/Examples.antt =====
-- A plan over three memories, of which the budget pays for one.
use totalrecall.Common.{ℕ, ◌+◌, ◌≤◌, ◌≡◌, refl, max, none, [], ◌∷◌}
use totalrecall.Common.Text.{String, word_count}
use totalrecall.Common.Outcome.{Outcome, ok, raise, other}
use totalrecall.Common.Json.{literal}
use totalrecall.Generation.Models.{
  Language, Framework, AutomationPattern, LocatorStrategy, GenerationRequest,
}
use totalrecall.Common.{true}
use totalrecall.Skills.{SkillRegistry, select}
use totalrecall.Memory.Models.{MemoryStatus, MemoryEntry, MemorySearchRequest, MemorySearchResult}
use totalrecall.Context.{selected_memory, select_skills, skill_tokens}
use totalrecall.Context.Models.{RequestMetadata, no_inputs}
use totalrecall.Context.Plans.{planned, plan-fits, plan-returned}

abbrev request : GenerationRequest
request = record {
  tenant_id = "acme";
  application_id = "shop";
  prompt = "test the login";
  target = record {
    language = Language.python;
    framework = Framework.playwright;
    pattern = AutomationPattern.pom;
    locator_strategy = LocatorStrategy.page_file;
  };
  scope = record { domain = "login"; route = none; tags = [] };
  provider = record { provider_id = "stub"; model = "m"; fallback_provider_ids = [] };
  options = record {
    validation_enabled = true;
    allow_repair = true;
    max_input_tokens = 400;
    max_output_tokens = none;
  };
  jira_key = none;
  test_types = none;
}

abbrev memory : String → MemoryEntry
memory id = record {
  entity_id = id;
  tenant_id = "acme";
  application_id = "shop";
  summary = "login";
  knowledge = "the login page";
  tags = [];
  source = none;
  confidence = literal "0.7";
  status = MemoryStatus.active;
  created_at = "2026-01-01";
  updated_at = "2026-01-01";
}

abbrev two_found : MemorySearchResult
two_found = record { items = memory "m1" ∷ memory "m2" ∷ []; adapter_version = "stub" }

-- Searches that return and that raise, over a state that counts the calls.
abbrev search : MemorySearchRequest → ℕ → Outcome MemorySearchResult × ℕ
search r calls = (ok two_found, calls + 1)

abbrev broken : MemorySearchRequest → ℕ → Outcome MemorySearchResult × ℕ
broken r calls = (raise (other "MemoryError" "down"), calls + 1)

abbrev extract : GenerationRequest → RequestMetadata
extract r = record {
  domain = "login";
  route = none;
  test_intent = [];
  target_stack = record {
    language = Language.python;
    framework = Framework.playwright;
    pattern = AutomationPattern.pom;
    locator_strategy = LocatorStrategy.page_file;
    is_known_combination = true;
  };
  warnings = [];
}

abbrev skills : SkillRegistry
skills = record { skills_dir = "skills"; skills = []; governance_overrides = [] }

plan-fits_example :
    (planned search extract skills "p" request "r" no_inputs 0).token_budget.estimated_input_tokens
    ≤ word_count request.prompt + max 400 (300 + skill_tokens skills request)
plan-fits_example = plan-fits search extract skills "p" request "r" no_inputs 0

plan-returned_example :
    ((planned search extract skills "p" request "r" no_inputs 0).selected_memories
      ≡ (selected_memory (memory "m1") ∷ []))
    × ((planned search extract skills "p" request "r" no_inputs 0).memory_ids ≡ ("m1" ∷ []))
    × ((planned search extract skills "p" request "r" no_inputs
          0).token_budget.estimated_tokens_saved
        ≡ 60)
unfolding select_skills select
plan-returned_example =
    plan-returned search extract skills "p" request "r" no_inputs 0 two_found refl
