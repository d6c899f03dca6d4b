-- ===== src/Providers.antt =====
-- totalrecall/providers: the models, the interface of a provider, and the gateway that chooses one.
pub mod Models
pub mod Chain
pub mod Normalizer
pub mod Accounts
pub mod Roundtrip
mod Examples
use totalrecall.Common.{Bool, true, false, Option, none, some, List, [], ◌∷◌, if◌then◌else◌}
use totalrecall.Common.Text.{String, ◌++◌, ◌==◌, sorted}
use totalrecall.Common.Dict
use totalrecall.Common.Dict.{Dict}
use totalrecall.Common.Outcome.{Outcome, ok, raise, Exception, provider_not_found, other}
use totalrecall.Errors.{provider_unavailable, service_error}
use totalrecall.Providers.Models.{
  ProviderRequest, ProviderResponse, ProviderHealthStatus, ProviderHealth, ProviderInterface,
}

abbrev pub is_not_found : Exception → Bool
is_not_found (provider_not_found s) = true
is_not_found _ = false

-- The request as the provider with that name sees it.
unfoldable pub rebind : String → ProviderRequest → ProviderRequest
rebind provider_id request =
    if provider_id == request.config.provider_id
    then request
    else record request { config = record (request.config) { provider_id = provider_id } }

-- The response under the gateway's name of the provider.
unfoldable pub normalize : String → ProviderResponse → ProviderResponse
normalize provider_id response =
    if response.provider_id == provider_id
    then response
    else record response { provider_id = provider_id }

-- `raise last_exc`: raising `None` is a TypeError.
abbrev pub raise_last : {A : Type 0} → Option Exception → Outcome A
raise_last none = raise (other "TypeError" "exceptions must derive from BaseException")
raise_last (some e) = raise e

-- The health of a provider that is not registered.
abbrev pub unregistered : String → ProviderHealth
unregistered provider_id = record {
  provider_id = provider_id;
  status = ProviderHealthStatus.unavailable;
  model = none;
  latency_ms = none;
  error =
      some (
        service_error provider_unavailable
          ("Provider '" ++ (provider_id ++ "' is not registered")));
}

-- Python's text of a list of texts is the parameter `list_text`.
module _ {W : Type 0} (list_text : List String → String)
    (providers : Dict (ProviderInterface W)) where
  abbrev pub not_registered : String → Exception
  not_registered provider_id = provider_not_found (
      "Provider '"
      ++ (provider_id
          ++ ("' is not registered. Available: " ++ list_text (sorted (Dict.keys providers)))))

  unfoldable pub resolve : String → Outcome (ProviderInterface W)
  resolve provider_id = elim (Dict.get providers provider_id) [
    | none ↦ raise (not_registered provider_id)
    | some provider ↦ ok provider
  ]

  -- The loop over the chain, with the last exception caught.
  unfoldable pub try_chain :
      ProviderRequest → List String → Option Exception → W → Outcome ProviderResponse × W
  unfolding resolve rebind normalize
  try_chain request [] last w = (raise_last last, w)
  try_chain request (provider_id ∷ chain) last w = elim (resolve provider_id) [
    | raise e ↦ try_chain request chain (some e) w
    | ok provider ↦
        let request' = rebind provider_id request in
        let (outcome, w') = provider.generate request' w in
        elim outcome [
          | ok response ↦ (ok (normalize provider_id response), w')
          | raise e ↦ elim (is_not_found e) [
            | true ↦ try_chain request' chain (some e) w'
            | false ↦ (raise e, w')
          ]
        ]
  ]

  unfoldable pub generate : ProviderRequest → List String → W → Outcome ProviderResponse × W
  unfolding try_chain
  generate request fallback_provider_ids w =
      try_chain request (request.config.provider_id ∷ fallback_provider_ids) none w

  unfoldable pub health : String → W → Outcome ProviderHealth × W
  unfolding resolve
  health provider_id w = elim (resolve provider_id) [
    | raise e ↦ (ok (unregistered provider_id), w)
    | ok provider ↦
        let (outcome, w') = provider.health w in
        elim outcome [
          | ok h ↦ (ok h, w')
          | raise e ↦ if is_not_found e then (ok (unregistered provider_id), w') else (raise e, w')
        ]
  ]

  unfoldable pub registered_ids : List String
  registered_ids = Dict.keys providers
