-- ===== src/Learning/Models.antt =====
-- totalrecall/learning/models.py. Times are texts.
use totalrecall.Common.{ℕ, Bool, true, false, Option, List}
use totalrecall.Common.Text.{String}
use totalrecall.Common.Dict.{Dict}
use totalrecall.Common.Json.{Json, Float}
use totalrecall.Generation.Models.{Framework}
use totalrecall.Catalogue.{CatalogueSource}

pub data LearningTriggerType : Type 0 where
  manual scheduled event : LearningTriggerType

pub data LearningRunStatus : Type 0 where
  queued running completed failed : LearningRunStatus

pub data LearningDiscoveryType : Type 0 where
  static_skill_candidate dynamic_memory catalogue_reference : LearningDiscoveryType

pub data LearningDiscoveryStatus : Type 0 where
  discovered approved rejected promoted : LearningDiscoveryStatus

pub data LearningDeltaState : Type 0 where
  new changed removed unchanged : LearningDeltaState

pub data LearningApprovalDecision : Type 0 where
  approved rejected needs_review : LearningApprovalDecision

-- `==` on the states
unfoldable pub delta_state_eq : LearningDeltaState → LearningDeltaState → Bool
delta_state_eq new new = true
delta_state_eq changed changed = true
delta_state_eq removed removed = true
delta_state_eq unchanged unchanged = true
delta_state_eq _ _ = false

pub record LearningScope : Type 0 where
  pub repository : String
  pub branch : String
  pub path : String
  pub framework : Option Framework
  pub domain : Option String
  pub route : Option String
  pub tags : List String

pub record LearningApproval : Type 0 where
  pub decision : LearningApprovalDecision
  pub actor_id : String
  pub decided_at : String
  pub reason : Option String

pub record LearningDelta : Type 0 where
  pub state : LearningDeltaState
  pub previous_hash : Option String
  pub current_hash : Option String
  pub changed_fields : List String

pub record LearningDiscovery : Type 0 where
  pub discovery_id : String
  pub discovery_type : LearningDiscoveryType
  pub status : LearningDiscoveryStatus
  pub delta : LearningDelta
  pub summary : String
  pub confidence : Float
  pub source : CatalogueSource
  pub proposed_tags : Dict Json
  pub approval : Option LearningApproval
  pub warnings : List String

pub record LearningRun : Type 0 where
  pub run_id : String
  pub tenant_id : String
  pub application_id : String
  pub scope : LearningScope
  pub trigger_type : LearningTriggerType
  pub status : LearningRunStatus
  pub discoveries : List LearningDiscovery
  pub started_at : String
  pub completed_at : Option String

pub record LearningReport : Type 0 where
  pub run : LearningRun
  pub discovered_count : ℕ
  pub changed_count : ℕ
  pub removed_count : ℕ
  pub unchanged_count : ℕ
  pub rejected_count : ℕ
  pub warnings : List String

pub record BulkDecisionResult : Type 0 where
  pub processed : ℕ
  pub skipped : ℕ
  pub discovery_ids : List String
