-- ===== src/Context/Models.antt =====
-- totalrecall/context/models.py, and the metadata of totalrecall/metadata/models.py.
use totalrecall.Common.{ℕ, Bool, Option, none, List, []}
use totalrecall.Common.Text.{String}
use totalrecall.Common.Dict.{Dict}
use totalrecall.Common.Json.{Json, Float}
use totalrecall.Generation.Models.{
  Language, Framework, AutomationPattern, LocatorStrategy, JiraStory, RagChunk,
}

pub record TargetStackResolution : Type 0 where
  pub language : Language
  pub framework : Framework
  pub pattern : AutomationPattern
  pub locator_strategy : LocatorStrategy
  pub is_known_combination : Bool

pub record RequestMetadata : Type 0 where
  pub domain : String
  pub route : Option String
  pub test_intent : List String
  pub target_stack : TargetStackResolution
  pub warnings : List String

pub data ContextExclusionReason : Type 0 where
  domain_mismatch route_mismatch framework_mismatch tombstoned : ContextExclusionReason
  token_budget policy : ContextExclusionReason

pub record ContextExclusion : Type 0 where
  pub entity_id : String
  pub reason : ContextExclusionReason
  pub details : Dict Json

pub record TokenBudget : Type 0 where
  pub max_input_tokens : ℕ
  pub estimated_input_tokens : ℕ
  pub baseline_estimate : ℕ
  pub estimated_tokens_saved : ℕ

pub record SelectedSkill : Type 0 where
  pub skill_id : String
  pub version : String
  pub reason : Option String

pub record SelectedMemory : Type 0 where
  pub memory_id : String
  pub confidence : Float
  pub reason : Option String

pub record ContextPlan : Type 0 where
  pub context_plan_id : String
  pub tenant_id : String
  pub application_id : String
  pub request_id : String
  pub selected_skills : List SelectedSkill
  pub selected_memories : List SelectedMemory
  pub skill_ids : List String
  pub memory_ids : List String
  pub excluded : List ContextExclusion
  pub token_budget : TokenBudget
  pub feature_flags : Dict Json
  pub provider_metadata : Dict Json
  pub jira_story : Option JiraStory
  pub rag_chunks : List RagChunk

-- `ExternalPlanInputs` of totalrecall/context/planner.py
pub record ExternalPlanInputs : Type 0 where
  pub jira_story : Option JiraStory
  pub rag_chunks : List RagChunk

abbrev pub no_inputs : ExternalPlanInputs
no_inputs = record { jira_story = none; rag_chunks = [] }
