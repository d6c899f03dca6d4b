-- ===== src/Generation/Repairs.antt =====
-- totalrecall/generation/orchestrator.py: what a repair does to the artifacts it should repair.
use totalrecall.Common.{
  true, false, List, [], ◌∷◌, ◌≡◌, refl, ap, arith, is_empty, Bool-cases, inl, inr, if◌then◌else◌,
}
use totalrecall.Common.Text.{String}
use totalrecall.Common.Outcome.{ok, raise, Exception}
use totalrecall.Generation.Models.{GenerationStatus, GenerationRequest}
use totalrecall.Providers.Models.{ProviderMessage, ProviderResponse}
use totalrecall.Providers.Normalizer
use totalrecall.Providers.Normalizer.{is_decode_error, not_json}
use totalrecall.Prompts.{build_repair_messages}
use totalrecall.Validation.{no_artifacts, not_run_summary, validate}
use totalrecall.Generation.Orchestrator.{
  Libraries, GenerationOrchestrator, Identifiers, Produced, code_status, needs_repair, ask,
  validated, produce, repair, produce_repaired,
}

-- What is left of an answer that is not JSON.
abbrev pub lost : GenerationRequest → String → Exception → Produced
lost request raw_text e = record {
  artifacts = [];
  norm_errors = not_json raw_text e ∷ [];
  validation = if request.options.validation_enabled then no_artifacts else not_run_summary;
}

module _ {W : Type 0} (lib : Libraries) (o : GenerationOrchestrator W) where
  produce-unreadable :
      (request : GenerationRequest) (response : ProviderResponse) (w : W) (e : Exception)
      → lib.loads response.raw_text ≡ raise e
      → is_decode_error e ≡ true
      → produce lib o request response w ≡ (ok (lost request response.raw_text e), w)
  unfolding produce Normalizer.normalize validated validate
  produce-unreadable request response w e unread decode =
      elim (Bool-cases request.options.validation_enabled) [
        | inl v ↦ ground (arith, unread, decode, v)
        | inr v ↦ ground (arith, unread, decode, v)
      ]

  -- If the validation of an answer fails in a way that asks for a repair, a provider answers the
  -- repair, and that answer is not JSON, then the artifacts of the first answer are gone and the status
  -- is FAILED, although the status for the first answer, which had artifacts, was COMPLETED.
  pub produce_repaired-unreadable :
      (ids : Identifiers) (request : GenerationRequest) (messages : List ProviderMessage)
      (response repair_response : ProviderResponse) (original : Produced) (w : W) (e : Exception)
      → (produce lib o request response w).0 ≡ ok original
      → is_empty original.artifacts ≡ false
      → needs_repair request original.validation ≡ true
      → (ask lib o ids request
          (build_repair_messages messages response.raw_text original.validation.diagnostics)
          (produce lib o request response w).1).0
        ≡ ok repair_response
      → lib.loads repair_response.raw_text ≡ raise e
      → is_decode_error e ≡ true
      → ((produce_repaired lib o ids request messages response w).0
          ≡ ok (lost request repair_response.raw_text e))
        × (code_status (lost request repair_response.raw_text e) ≡ GenerationStatus.failed)
        × (code_status original ≡ GenerationStatus.completed)
  unfolding produce_repaired repair code_status
  produce_repaired-unreadable ids request messages response repair_response original w e produced
        full needed asked unread decode =
      let repair_messages =
        build_repair_messages messages response.raw_text original.validation.diagnostics in
      let (answered, w2) =
        ask lib o ids request repair_messages (produce lib o request response w).1 in
      let lost_it = ap (λ p. p.0) (produce-unreadable request repair_response w2 e unread decode) in
      (
        rw (produced, produce_repaired, needed, repair, asked, lost_it) refl,
        refl,
        ground (arith, full),
      )
