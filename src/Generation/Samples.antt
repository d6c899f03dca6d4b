-- ===== src/Generation/Samples.antt =====
-- totalrecall/generation: a request, a skill registry, a plan and an artifact, for the tests.
use totalrecall.Common.{true, none, [], ◌∷◌}
use totalrecall.Generation.Models.{
  Language, Framework, AutomationPattern, LocatorStrategy, ArtifactType, GenerationRequest,
  GeneratedArtifact,
}
use totalrecall.Skills.{SkillRegistry}
use totalrecall.Context.Models.{ContextPlan, RequestMetadata}
use totalrecall.Common.Json.{literal}

abbrev pub request : GenerationRequest
request = record {
  tenant_id = "acme";
  application_id = "shop";
  prompt = "test the login";
  target = record {
    language = Language.python;
    framework = Framework.pytest;
    pattern = AutomationPattern.pom;
    locator_strategy = LocatorStrategy.page_file;
  };
  scope = record { domain = "login"; route = none; tags = [] };
  provider = record { provider_id = "stub"; model = "m"; fallback_provider_ids = [] };
  options = record {
    validation_enabled = true;
    allow_repair = true;
    max_input_tokens = 400;
    max_output_tokens = none;
  };
  jira_key = none;
  test_types = none;
}

abbrev pub metadata : RequestMetadata
metadata = record {
  domain = "login";
  route = none;
  test_intent = [];
  target_stack = record {
    language = Language.python;
    framework = Framework.pytest;
    pattern = AutomationPattern.pom;
    locator_strategy = LocatorStrategy.page_file;
    is_known_combination = true;
  };
  warnings = [];
}

abbrev pub skills : SkillRegistry
skills = record { skills_dir = "skills"; skills = []; governance_overrides = [] }

abbrev pub login_plan : ContextPlan
login_plan = record {
  context_plan_id = "plan-1";
  tenant_id = "acme";
  application_id = "shop";
  request_id = "req-1";
  selected_skills = [];
  selected_memories = record { memory_id = "m1"; confidence = literal "0.7"; reason = none } ∷ [];
  skill_ids = [];
  memory_ids = "m1" ∷ [];
  excluded = [];
  token_budget = record {
    max_input_tokens = 400;
    estimated_input_tokens = 360;
    baseline_estimate = 400;
    estimated_tokens_saved = 40;
  };
  feature_flags = [];
  provider_metadata = [];
  jira_story = none;
  rag_chunks = [];
}

abbrev pub artifact : GeneratedArtifact
artifact = record {
  path = "tests/test_login.py";
  language = Language.python;
  content = "def test_login(): pass";
  artifact_type = ArtifactType.test_spec;
}
