-- ===== src/Generation/Route/Refusals.antt =====
-- totalrecall/api/routes/generations.py: a refused request leaves everything but the limiter alone.
use totalrecall.Common.{
  ℕ, Bool, true, false, ◌&&◌, not, Option, none, some, ◌≡◌, refl, arith, inl, inr,
}
use totalrecall.Common.Text.{String, ◌==◌}
use totalrecall.Common.Outcome.{Outcome, ok, raise, Outcome-cases}
use totalrecall.Auth.{TenantContext}
use totalrecall.RateLimit.{RateLimitProvider, check}
use totalrecall.Generation.Models.{GenerationRequest}
use totalrecall.Generation.Orchestrator.{Libraries, GenerationOrchestrator, Identifiers}
use totalrecall.Generation.Route.{App, check_rate_limit, create_generation}

-- Whether the limiter lets a request of the tenant pass; one that is missing does.
abbrev pub admits : ℕ → ℕ → String → Option RateLimitProvider → Bool
admits per_second now tenant_id none = true
admits per_second now tenant_id (some p) = elim (check per_second now p tenant_id).0 [
  | raise e ↦ false
  | ok result ↦ result.allowed
]

-- The answer is an error.
abbrev pub is_error {ℓ} : {A : Type ℓ} → Outcome A → Bool
is_error (ok a) = false
is_error (raise e) = true

module _ {W : Type 0} (lib : Libraries) (o : GenerationOrchestrator W) (audited kept : Bool)
    (per_second : ℕ) where
  check_rate_limit-admits :
      (now : ℕ) (tenant_id : String) (limiter : Option RateLimitProvider)
      → is_error (check_rate_limit lib.nat_text per_second now tenant_id limiter).0
        ≡ not (admits per_second now tenant_id limiter)
  unfolding check_rate_limit
  check_rate_limit-admits now tenant_id none = refl
  check_rate_limit-admits now tenant_id (some p) =
      elim (Outcome-cases (check per_second now p tenant_id).0) [
        | inr (x, e) ↦ ground (arith, e)
        | inl (r, e) ↦ ground (arith, e)
      ]

  -- The parts of the application that a refusal leaves alone.
  abbrev pub IsUntouched : App W → App W → Type 0
  IsUntouched before after =
      (after.world ≡ before.world) × (after.metrics ≡ before.metrics) × (after.tasks ≡ before.tasks)

  -- A request that the limiter does not let pass, or that names another tenant than its token, is
  -- answered with an error, and the state behind the pipeline, the counters and the tasks are as
  -- before.
  pub create_generation-refused :
      (now : ℕ) (ids : Identifiers) (context : TenantContext) (body : GenerationRequest)
      (app : App W)
      → (admits per_second now context.tenant_id app.rate_limit_provider
          && body.tenant_id == context.tenant_id)
        ≡ false
      → (is_error (create_generation lib o audited kept per_second now ids context body app).0
          ≡ true)
        × IsUntouched app
            (create_generation lib o audited kept per_second now ids context body app).1
  unfolding create_generation
  create_generation-refused now ids context body app refused =
      let limited =
        check_rate_limit lib.nat_text per_second now context.tenant_id app.rate_limit_provider in
      let verdict = check_rate_limit-admits now context.tenant_id app.rate_limit_provider in
      elim (Outcome-cases limited.0) [
        | inr (x, e) ↦ rw (e, create_generation) (refl, (refl, refl, refl))
        | inl (r, e) ↦
            let foreign : (body.tenant_id == context.tenant_id) ≡ false =
              ground (arith, e, verdict, refused) in
            rw (e, create_generation, foreign) (refl, (refl, refl, refl))
      ]
