-- ===== src/Validation/Failing.antt =====
-- totalrecall/validation: trouble with the companion worker leaves the verdict to the other checks.
use totalrecall.Common.{
  Bool, true, false, Option, none, some, List, [], ◌∷◌, any, zero, suc, ℕ, ◌⊕◌, ◌≡◌, refl, ap,
  arith, inl, inr, any-append,
}
use totalrecall.Common.Text.{String, ◌++◌}
use totalrecall.Common.Int.{ℤ, pos, negsuc}
use totalrecall.Common.Outcome.{Outcome, ok, raise, Outcome-cases}
use totalrecall.Generation.Models.{
  Language, ArtifactType, GeneratedArtifact, ValidationDiagnostic, ValidationSummary, is_failed,
}
use totalrecall.Skills.{SkillDefinition}
use totalrecall.Validation.{
  PlaywrightValidationWorker, SyntaxFailure, failing, overall, in_language, check_java_syntax,
  check_python_syntax, check_structure, check_playwright_worker, validate, worker_diagnostics,
}
use totalrecall.Validation.Worker
use totalrecall.Validation.Worker.{
  SubprocessPlaywrightWorkerClient, PlaywrightWorkerRequest, PlaywrightWorkerResponse, Subprocess,
  completed, file_not_found, timeout_expired, raised, read_outcome, worker_warning, identify,
}

-- Whether a validation failed; nothing when it raises.
abbrev pub verdict : {W : Type 0} → Outcome ValidationSummary × W → Option Bool
verdict (ok s, w) = some (is_failed s.status)
verdict (raise e, w) = none

overall-failed : (ds : List ValidationDiagnostic) → is_failed (overall ds) ≡ any failing ds
unfolding overall
overall-failed ds = ground arith

-- Diagnostics at the end that have no failure leave the verdict as it is.
overall-tail :
    (xs ys zs ws : List ValidationDiagnostic)
    → any failing ws ≡ false
    → is_failed (overall (xs ⊕ (ys ⊕ (zs ⊕ ws)))) ≡ is_failed (overall (xs ⊕ (ys ⊕ (zs ⊕ []))))
overall-tail xs ys zs ws h = simp (overall-failed, any-append, h)

module _ (set_order : List ArtifactType → List ArtifactType) (has_class : String → Bool)
    (parse_python : String → Outcome (Option SyntaxFailure)) {W : Type 0} where
  -- The worker reports no failure on the artifacts it is given.
  abbrev pub IsHarmless : PlaywrightValidationWorker W → List GeneratedArtifact → W → Type 0
  IsHarmless worker artifacts w =
      any failing (worker_diagnostics (worker (in_language Language.typescript artifacts) w).0)
      ≡ false

  check_playwright_worker-harmless :
      (worker : PlaywrightValidationWorker W) (artifacts : List GeneratedArtifact)
      (skill : Option SkillDefinition) (w : W)
      → IsHarmless worker artifacts w
      → any failing
          (check_playwright_worker set_order has_class parse_python
            (some worker)
            artifacts
            skill
            w).0
        ≡ false
  unfolding check_playwright_worker
  check_playwright_worker-harmless worker artifacts none w h = refl
  check_playwright_worker-harmless worker artifacts (some skill) w h = ground (arith, h)

  validate-harmless :
      (worker : PlaywrightValidationWorker W) (artifacts : List GeneratedArtifact)
      (skill : Option SkillDefinition) (w : W)
      → IsHarmless worker artifacts w
      → verdict (validate set_order has_class parse_python (some worker) artifacts skill w)
        ≡ verdict (validate set_order has_class parse_python none artifacts skill w)
  unfolding validate
  validate-harmless worker [] skill w h = refl
  validate-harmless worker (a ∷ rest) skill w h =
      let structure = check_structure set_order has_class parse_python (a ∷ rest) skill in
      let java = check_java_syntax (a ∷ rest) in
      let workers =
        (check_playwright_worker set_order has_class parse_python (some worker) (a ∷ rest) skill
          w).0 in
      let clean = check_playwright_worker-harmless worker (a ∷ rest) skill w h in
      elim (Outcome-cases (check_python_syntax set_order has_class parse_python (a ∷ rest))) [
        | inr (x, e) ↦ rw (e, verdict, validate) refl
        | inl (python, e) ↦
            rw (e, verdict, validate) (ap some (overall-tail structure python java workers clean))
      ]

-- Whether the process ended with the exit status 0.
abbrev pub ended_well : Subprocess → Bool
ended_well (completed (pos zero) stdout stderr) = true
ended_well _ = false

module _ {W : Type 0} (int_text : ℤ → String) (fresh_id : W → String × W)
    (dump : PlaywrightWorkerRequest → String)
    (read_response : String → Outcome PlaywrightWorkerResponse)
    (run : List String → String → ℕ → Option String → W → Subprocess × W) where
  read_outcome-harmless :
      (client : SubprocessPlaywrightWorkerClient) (process : Subprocess)
      → ended_well process ≡ false
      → any failing (
          worker_diagnostics (read_outcome int_text fresh_id dump read_response run client process))
        ≡ false
  unfolding read_outcome worker_diagnostics worker_warning
  read_outcome-harmless client (file_not_found f) h = refl
  read_outcome-harmless client timeout_expired h = refl
  read_outcome-harmless client (raised e) h = refl
  read_outcome-harmless client (completed (pos zero) stdout stderr) h = ground (arith, h)
  read_outcome-harmless client (completed (pos (suc n)) stdout stderr) h = refl
  read_outcome-harmless client (completed (negsuc n) stdout stderr) h = refl

  module _ (set_order : List ArtifactType → List ArtifactType) (has_class : String → Bool)
      (parse_python : String → Outcome (Option SyntaxFailure))
      (client : SubprocessPlaywrightWorkerClient) where
    -- The client as the coordinator calls it, without a request identifier.
    abbrev pub worker_of : PlaywrightValidationWorker W
    worker_of artifacts w =
        Worker.validate int_text fresh_id dump read_response run client artifacts none w

    -- What the process comes to when it is given the artifacts.
    abbrev pub process_of : List GeneratedArtifact → W → Subprocess
    process_of artifacts w =
        let (id, w') = fresh_id w in
        (run client.command
          (dump (record { request_id = "validation_" ++ id; artifacts = artifacts }))
          client.timeout_seconds client.cwd w').0

    -- If the process of the companion worker is not found, times out, raises or ends with a status
    -- other than 0 on the TypeScript artifacts, then the validation fails, and raises, exactly
    -- when it would without a worker.
    pub validate-trouble :
        (artifacts : List GeneratedArtifact) (skill : Option SkillDefinition) (w : W)
        → ended_well (process_of (in_language Language.typescript artifacts) w) ≡ false
        → verdict (validate set_order has_class parse_python (some worker_of) artifacts skill w)
          ≡ verdict (validate set_order has_class parse_python none artifacts skill w)
    unfolding Worker.validate
    validate-trouble artifacts skill w trouble =
        let process = process_of (in_language Language.typescript artifacts) w in
        validate-harmless set_order has_class parse_python worker_of artifacts skill w
          (read_outcome-harmless client process trouble)
