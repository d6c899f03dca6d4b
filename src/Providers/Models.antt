-- ===== src/Providers/Models.antt =====
-- totalrecall/providers/models.py, and the interface of totalrecall/providers/base.py.
use totalrecall.Common.{ℕ, Option, List}
use totalrecall.Common.Text.{String}
use totalrecall.Common.Dict.{Dict}
use totalrecall.Common.Json.{Json, Float}
use totalrecall.Common.Outcome.{Outcome}
use totalrecall.Errors.{ServiceError}

pub data ProviderRole : Type 0 where
  system user assistant : ProviderRole

pub data ProviderFinishReason : Type 0 where
  stop length tool_call error unknown : ProviderFinishReason

pub data ProviderHealthStatus : Type 0 where
  ok degraded unavailable : ProviderHealthStatus

pub record ProviderMessage : Type 0 where
  pub role : ProviderRole
  pub content : String

pub record ProviderConfig : Type 0 where
  pub provider_id : String
  pub model : String
  pub timeout_seconds : ℕ
  pub max_output_tokens : Option ℕ
  pub temperature : Float

pub record ProviderRequest : Type 0 where
  pub request_id : String
  pub tenant_id : String
  pub messages : List ProviderMessage
  pub config : ProviderConfig
  pub metadata : Dict Json

pub record ProviderUsage : Type 0 where
  pub input_tokens : ℕ
  pub output_tokens : ℕ

pub record ProviderResponse : Type 0 where
  pub request_id : String
  pub provider_id : String
  pub model : String
  pub raw_text : String
  pub usage : ProviderUsage
  pub finish_reason : ProviderFinishReason
  pub errors : List ServiceError
  pub latency_ms : Option ℕ
  pub metadata : Dict Json

pub record ProviderHealth : Type 0 where
  pub provider_id : String
  pub status : ProviderHealthStatus
  pub model : Option String
  pub latency_ms : Option ℕ
  pub error : Option ServiceError

-- A provider over the state `W` behind the providers.
pub record ProviderInterface (W : Type 0) : Type 0 where
  pub provider_id : String
  pub generate : ProviderRequest → W → Outcome ProviderResponse × W
  pub health : W → Outcome ProviderHealth × W
