-- ===== src/Errors.antt =====
-- totalrecall/errors.py: the errors that a response carries.
use totalrecall.Common.{Bool, false, Option, none, []}
use totalrecall.Common.Text.{String}
use totalrecall.Common.Dict.{Dict}
use totalrecall.Common.Json.{Json}

pub data ServiceErrorCode : Type 0 where
  validation_failed unauthorized forbidden not_found conflict : ServiceErrorCode
  provider_unavailable provider_rate_limited provider_auth_failed : ServiceErrorCode
  memory_unavailable memory_schema_mismatch internal_error : ServiceErrorCode
  guardrail_blocked normalization_failed : ServiceErrorCode

pub record ServiceError : Type 0 where
  pub code : ServiceErrorCode
  pub message : String
  pub retryable : Bool
  pub details : Dict Json
  pub correlation_id : Option String

-- `ServiceError(code=..., message=...)`, with the defaults of the other fields
abbrev pub service_error : ServiceErrorCode → String → ServiceError
service_error code message = record {
  code = code;
  message = message;
  retryable = false;
  details = [];
  correlation_id = none;
}
