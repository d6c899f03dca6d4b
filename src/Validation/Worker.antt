-- ===== src/Validation/Worker.antt =====
-- totalrecall/validation/worker.py: the client of the companion worker, which runs as a process. The
-- process, the texts of JSON and the identifiers that `uuid` makes are outside.
use totalrecall.Common.{
  ℕ, zero, Bool, ◌&&◌, ◌||◌, Option, none, some, List, [], ◌∷◌, is_empty, if◌then◌else◌, ltb,
}
use totalrecall.Common.Text.{String, ◌++◌, ◌==◌, truthy, last_chars}
use totalrecall.Common.Dict.{Dict}
use totalrecall.Common.Int.{ℤ, pos}
use totalrecall.Common.Json.{Json}
use totalrecall.Common.Outcome.{
  Outcome, ok, raise, Exception, value_error, exception_text, exception_name,
}
use totalrecall.Generation.Models.{
  ValidationStatus, GeneratedArtifact, ValidationDiagnostic, ValidationSummary, is_failed,
}
use totalrecall.Validation.{diagnostic, json_texts}

pub record PlaywrightWorkerRequest : Type 0 where
  pub request_id : String
  pub artifacts : List GeneratedArtifact

pub record PlaywrightWorkerResponse : Type 0 where
  pub status : ValidationStatus
  pub diagnostics : List ValidationDiagnostic

pub record SubprocessPlaywrightWorkerClient : Type 0 where
  pub command : List String
  pub timeout_seconds : ℕ
  pub cwd : Option String

unfoldable pub new_client :
    List String → ℕ → Option String → Outcome SubprocessPlaywrightWorkerClient
new_client command timeout_seconds cwd =
    if is_empty command
    then raise (value_error "Playwright worker command must not be empty")
    else (if ltb timeout_seconds 1
        then raise (value_error "Playwright worker timeout must be >= 1 second")
        else ok (record { command = command; timeout_seconds = timeout_seconds; cwd = cwd }))

-- What `subprocess.run` comes to.
pub data Subprocess : Type 0 where
  file_not_found : String → Subprocess
  timeout_expired : Subprocess
  raised : Exception → Subprocess
  completed : ℤ → String → String → Subprocess

unfoldable pub worker_warning : String → String → Dict Json → ValidationSummary
worker_warning code message details = record {
  status = ValidationStatus.warning;
  diagnostics =
      record (diagnostic code message ValidationStatus.warning) { details = details } ∷ [];
}

-- The exceptions that reading the answer catches.
abbrev pub is_invalid : Exception → Bool
is_invalid e = exception_name e == "JSONDecodeError" || exception_name e == "ValidationError"

unfoldable pub summary_of : PlaywrightWorkerResponse → ValidationSummary
summary_of response = record {
  status = response.status;
  diagnostics =
      if is_failed response.status && is_empty response.diagnostics
      then (diagnostic "TYPESCRIPT_WORKER_FAILED"
            "Playwright validation worker reported failure without diagnostics"
            ValidationStatus.failed
          ∷ [])
      else response.diagnostics;
}

-- `int_text` is the text of a number, `read_response` reads a text as JSON and checks it against the
-- model of an answer, `dump` is `model_dump_json`, and `run` runs the command.
module _ {W : Type 0} (int_text : ℤ → String) (fresh_id : W → String × W)
    (dump : PlaywrightWorkerRequest → String)
    (read_response : String → Outcome PlaywrightWorkerResponse)
    (run : List String → String → ℕ → Option String → W → Subprocess × W) where
  -- The branches on what the process came to.
  unfoldable pub read_outcome :
      SubprocessPlaywrightWorkerClient → Subprocess → Outcome ValidationSummary
  unfolding summary_of worker_warning
  read_outcome client (file_not_found filename) = ok (
      worker_warning "TYPESCRIPT_WORKER_UNAVAILABLE"
        ("Playwright validation worker command was not found: " ++ filename)
        (("command", Json.arr (json_texts client.command)) ∷ []))
  read_outcome client timeout_expired = ok (
      worker_warning "TYPESCRIPT_WORKER_TIMEOUT" "Playwright validation worker timed out"
        (("timeout_seconds", Json.int (pos client.timeout_seconds)) ∷ []))
  read_outcome client (raised e) = raise e
  read_outcome client (completed (pos zero) stdout stderr) = elim (read_response stdout) [
    | ok response ↦ ok (summary_of response)
    | raise e ↦
        if is_invalid e
        then ok (
            worker_warning "TYPESCRIPT_WORKER_BAD_RESPONSE"
              "Playwright validation worker returned an invalid response"
              (("error", Json.str (exception_text e))
                ∷ ("stdout", Json.str (last_chars 2000 stdout))
                ∷ []))
        else raise e
  ]
  read_outcome client (completed returncode stdout stderr) = ok (
      worker_warning "TYPESCRIPT_WORKER_FAILED"
        ("Playwright validation worker exited with status " ++ int_text returncode)
        (("stderr", Json.str (last_chars 2000 stderr))
          ∷ ("stdout", Json.str (last_chars 2000 stdout))
          ∷ []))

  -- The identifier of the request: the caller's, or a new one when that is missing or empty.
  abbrev pub identify : Option String → W → String × W
  identify none w = let (id, w') = fresh_id w in ("validation_" ++ id, w')
  identify (some s) w =
      if truthy s then (s, w) else (let (id, w') = fresh_id w in ("validation_" ++ id, w'))

  unfoldable pub validate :
      SubprocessPlaywrightWorkerClient
      → List GeneratedArtifact
      → Option String
      → W
      → Outcome ValidationSummary × W
  unfolding read_outcome
  validate client artifacts request_id w =
      let (id, w1) = identify request_id w in
      let payload = dump (record { request_id = id; artifacts = artifacts }) in
      let (outcome, w2) = run client.command payload client.timeout_seconds client.cwd w1 in
      (read_outcome client outcome, w2)
