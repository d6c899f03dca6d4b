-- ===== src/Providers/Examples.antt =====
-- A chain of three names, of which the second is registered.
use totalrecall.Common.{
  ℕ, ◌+◌, none, refl, List, [], ◌∷◌, ◌≡◌, arith, sym, subst, Bool-cases, inl, inr,
}
use mathlib.Core.Option.{some-injective}
use totalrecall.Common.Text.{String, ◌==◌, truthy}
use totalrecall.Common.Dict
use totalrecall.Common.Dict.{Dict}
use totalrecall.Common.Json.{Json, literal, str}
use totalrecall.Common.Outcome.{Outcome, ok, raise}
use totalrecall.Providers.Models.{
  ProviderRole, ProviderFinishReason, ProviderHealthStatus, ProviderRequest, ProviderResponse,
  ProviderInterface,
}
use totalrecall.Generation.Samples.{artifact}
use totalrecall.Providers.Normalizer
use totalrecall.Providers.Roundtrip.{answer_of, normalize-encoded}
use totalrecall.Providers.Accounts.{due, normalize-count}
use totalrecall.Providers.{normalize, generate}
use totalrecall.Providers.Chain.{IsDirect, generate-first_registered}

abbrev request : ProviderRequest
request = record {
  request_id = "r";
  tenant_id = "acme";
  messages = record { role = ProviderRole.user; content = "hello" } ∷ [];
  config = record {
    provider_id = "openai";
    model = "m";
    timeout_seconds = 60;
    max_output_tokens = none;
    temperature = literal "0.0";
  };
  metadata = [];
}

abbrev response : String → ProviderResponse
response id = record {
  request_id = "r";
  provider_id = id;
  model = "m";
  raw_text = "hi";
  usage = record { input_tokens = 0; output_tokens = 0 };
  finish_reason = ProviderFinishReason.stop;
  errors = [];
  latency_ms = none;
  metadata = [];
}

-- A provider that always answers, over a state that counts its calls.
abbrev stub : ProviderInterface ℕ
stub = record {
  provider_id = "stub-1";
  generate = λ r calls. (ok (response "stub-1"), calls + 1);
  health = λ calls. (
    ok (record {
      provider_id = "stub-1";
      status = ProviderHealthStatus.ok;
      model = none;
      latency_ms = none;
      error = none;
    }),
    calls,
  );
}

abbrev providers : Dict (ProviderInterface ℕ)
providers = ("local", stub) ∷ []

abbrev list_text : List String → String
list_text names = "[...]"

providers-IsDirect : IsDirect providers
unfolding Dict.get
providers-IsDirect name provider r w e registered raised = elim (Bool-cases ("local" == name)) [
  | inr other ↦ absurd (ground arith)
  | inl same ↦
      let found : stub ≡ provider = some-injective stub provider (ground arith) in
      absurd (cc (subst (λ p. (p.generate r w).0 ≡ raise e) (sym found) raised))
]

generate-first_registered_example :
    generate list_text providers request ("local" ∷ "other" ∷ []) 0 ≡ (ok (response "local"), 1)
unfolding Dict.get normalize
generate-first_registered_example =
    generate-first_registered list_text providers request ("local" ∷ "other" ∷ []) 0
      providers-IsDirect

-- The texts of JSON that the library would read, for one answer.
abbrev answer : ProviderResponse
answer = record (response "stub-1") { raw_text = "{}" }

abbrev loads : String → Outcome Json
loads text = ok (answer_of (artifact ∷ []))

abbrev py_str : Json → String
py_str (str s) = s
py_str v = ""

abbrev nat_text : ℕ → String
nat_text n = "0"

abbrev trim : String → String
trim text = text

normalize-encoded_example :
    Normalizer.normalize loads py_str nat_text trim answer ≡ ok (artifact ∷ [], [])
unfolding truthy
normalize-encoded_example =
    normalize-encoded loads py_str nat_text trim answer (artifact ∷ []) (λ s. refl)
      ((refl, refl, refl), tt) refl

normalize-count_example : 1 ≡ due (loads answer.raw_text)
unfolding truthy
normalize-count_example =
    normalize-count loads py_str nat_text trim answer (artifact ∷ [], [])
      (normalize-encoded loads py_str nat_text trim answer (artifact ∷ []) (λ s. refl)
        ((refl, refl, refl), tt) refl)
