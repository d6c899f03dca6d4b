-- ===== src/Generation/Route.antt =====
-- totalrecall/api/routes/generations.py: the route that answers a request for a generation. The limiter,
-- the counters and the background tasks are the state of the application, beside the state `W` behind
-- the pipeline; the repositories that may be missing are flags.
pub mod Refusals
use totalrecall.Common.{
  ℕ, ◌+◌, Bool, true, false, ◌&&◌, not, Option, none, some, List, [], ◌∷◌, ◌⊕◌, length,
  if◌then◌else◌,
}
use totalrecall.Common.Text.{String, ◌++◌, ◌==◌, truthy}
use totalrecall.Common.Json.{Float}
use totalrecall.Common.Outcome.{Outcome, ok, raise, http}
use totalrecall.Auth.{TenantContext}
use totalrecall.RateLimit.{RateLimitProvider, RateLimitResult, check}
use totalrecall.Observability.{GenerationMetrics, Generated, record_generation, record_validation}
use totalrecall.Generation.Models.{
  GenerationStatus, GenerationRequest, GenerationResult, validation_status_text,
}
use totalrecall.Generation.Orchestrator.{Libraries, GenerationOrchestrator, Identifiers}
use totalrecall.Generation.Pipeline.{generate}

-- What is left to run after the answer.
pub data BackgroundTask : Type 0 where
  audit : (tenant_id actor_id event_type subject_id status : String) → ℕ → BackgroundTask
  save_snapshot :
      (snapshot_id tenant_id application_id request_id : String)
      → List String
      → List String
      → ℕ
      → BackgroundTask

pub record App (W : Type 0) : Type 0 where
  pub rate_limit_provider : Option RateLimitProvider
  pub metrics : Option GenerationMetrics
  pub tasks : List BackgroundTask
  pub world : W

abbrev pub is_completed : GenerationStatus → Bool
is_completed GenerationStatus.completed = true
is_completed _ = false

unfoldable pub generation_status_text : GenerationStatus → String
generation_status_text GenerationStatus.accepted = "accepted"
generation_status_text GenerationStatus.running = "running"
generation_status_text GenerationStatus.completed = "completed"
generation_status_text GenerationStatus.failed = "failed"

-- `none` when there is no limiter.
unfoldable pub check_rate_limit :
    (ℕ → String)
    → ℕ
    → ℕ
    → String
    → Option RateLimitProvider
    → Outcome (Option RateLimitResult) × Option RateLimitProvider
check_rate_limit nat_text per_second now tenant_id none = (ok none, none)
check_rate_limit nat_text per_second now tenant_id (some provider) =
    let (outcome, provider') = check per_second now provider tenant_id in
    (
      elim outcome [
        | raise e ↦ raise e
        | ok result ↦
            if result.allowed
            then ok (some result)
            else raise (
                http 429 (
                  "Rate limit exceeded. Retry after "
                  ++ (nat_text result.retry_after_seconds ++ "s.")))
      ],
      some provider',
    )

abbrev pub audit_tasks :
    Bool → TenantContext → GenerationRequest → GenerationResult → List BackgroundTask
audit_tasks audited context body result =
    if audited
    then (audit context.tenant_id context.actor_id
          (if is_completed result.status then "generation.completed" else "generation.failed")
          body.application_id (generation_status_text result.status) (length result.artifacts)
        ∷ [])
    else []

abbrev pub snapshot_of :
    TenantContext → GenerationRequest → GenerationResult → Option String → List BackgroundTask
snapshot_of context body result none = []
snapshot_of context body result (some plan_id) =
    if truthy plan_id
    then (save_snapshot plan_id context.tenant_id body.application_id result.request_id
          result.context.skill_ids result.context.memory_ids result.context.estimated_input_tokens
        ∷ [])
    else []

abbrev pub snapshot_tasks :
    Bool → TenantContext → GenerationRequest → GenerationResult → List BackgroundTask
snapshot_tasks kept context body result =
    if kept then snapshot_of context body result result.context.context_plan_id else []

abbrev pub generated : GenerationResult → Generated
generated result = record {
  completed = is_completed result.status;
  repaired = false;
  input_tokens = result.context.estimated_input_tokens;
  output_tokens = 0;
  estimated_tokens_saved = result.context.estimated_tokens_saved;
  context_plan_id = result.context.context_plan_id;
  baseline_input_tokens = result.context.baseline_input_tokens;
  selected_skill_count = length result.context.skill_ids;
  selected_memory_count = length result.context.memory_ids;
  excluded_memory_count = result.context.excluded_memory_count;
  max_input_tokens = result.context.max_input_tokens;
}

unfoldable pub recorded :
    (ℕ → ℕ → Float) → GenerationResult → Option GenerationMetrics → Option GenerationMetrics
unfolding record_generation record_validation
recorded percent result none = none
recorded percent result (some m) = some (
    record_validation (validation_status_text result.validation.status)
      (record_generation percent (generated result) m))

module _ {W : Type 0} (lib : Libraries) (o : GenerationOrchestrator W) (audited kept : Bool)
    (per_second : ℕ) where
  -- What follows an answer of the pipeline.
  abbrev pub answered : TenantContext → GenerationRequest → GenerationResult → App W → App W
  answered context body result app = record app {
    metrics = recorded lib.percent result app.metrics;
    tasks =
        app.tasks
        ⊕ audit_tasks audited context body result
        ⊕ snapshot_tasks kept context body result;
  }

  unfoldable pub create_generation :
      ℕ → Identifiers → TenantContext → GenerationRequest → App W → Outcome GenerationResult × App W
  unfolding check_rate_limit recorded
  create_generation now ids context body app =
      let (admitted, limiter) =
        check_rate_limit lib.nat_text per_second now context.tenant_id app.rate_limit_provider in
      let app1 = record app { rate_limit_provider = limiter } in
      elim admitted [
        | raise e ↦ (raise e, app1)
        | ok result ↦
            if not (body.tenant_id == context.tenant_id)
            then (raise (http 403 "Request tenant_id does not match authenticated tenant."), app1)
            else (let (outcome, world) = generate lib o ids body app1.world in
                let app2 = record app1 { world = world } in
                elim outcome [
                  | raise e ↦ (raise e, app2)
                  | ok result ↦ (ok result, answered context body result app2)
                ])
      ]
