-- ===== src/Providers/Chain.antt =====
-- Which provider of the chain answers.
use totalrecall.Common.{
  false, Option, none, some, Bool-cases, ap, List, [], ◌∷◌, ◌≡◌, refl, ◌∙◌, Option-cases, inl, inr,
}
use totalrecall.Common.Text.{String, ◌==◌, eq_iff}
use totalrecall.Common.Dict
use totalrecall.Common.Dict.{Dict}
use totalrecall.Common.Outcome.{Outcome, ok, raise, Exception, Outcome-cases}
use totalrecall.Providers.Models.{ProviderRequest, ProviderResponse, ProviderInterface}
use totalrecall.Providers.{
  is_not_found, rebind, normalize, raise_last, not_registered, resolve, try_chain, generate,
}

-- The request with the name of a provider.
abbrev pub addressed : String → ProviderRequest → ProviderRequest
addressed provider_id request = record request {
  config = record (request.config) { provider_id = provider_id };
}

rebind-addressed :
    (id : String) (request : ProviderRequest) → rebind id request ≡ addressed id request
unfolding rebind
rebind-addressed id request = elim (Bool-cases (id == request.config.provider_id)) [
  | inl same ↦ rw (same, (eq_iff id request.config.provider_id).0 same)
  | inr other ↦ rw other
]

normalize_lem :
    (id : String) (response : ProviderResponse)
    → normalize id response ≡ record response { provider_id = id }
unfolding normalize
normalize_lem id response = elim (Bool-cases (response.provider_id == id)) [
  | inl same ↦
      rw same
        (ap (λ j. record response { provider_id = j }) ((eq_iff response.provider_id id).0 same))
  | inr other ↦ rw other
]

-- What a registered provider answers, with its name on the response.
abbrev pub answer :
    {W : Type 0} → String → Outcome ProviderResponse × W → Outcome ProviderResponse × W
answer provider_id (ok response, w) = (ok (record response { provider_id = provider_id }), w)
answer provider_id (raise e, w) = (raise e, w)

-- The first name of the chain that is registered, with its provider.
abbrev pub first_registered :
    {W : Type 0} → Dict (ProviderInterface W) → List String → Option (String × ProviderInterface W)
first_registered providers [] = none
first_registered providers (id ∷ ids) = elim (Dict.get providers id) [
  | some provider ↦ some (id, provider)
  | none ↦ first_registered providers ids
]

-- Registered providers do not raise the exception of the gateway itself.
abbrev pub IsDirect : {W : Type 0} → Dict (ProviderInterface W) → Type 0
IsDirect {W} providers =
    (name : String) (provider : ProviderInterface W) (request : ProviderRequest) (w : W)
    (e : Exception)
    → Dict.get providers name ≡ some provider
    → (provider.generate request w).0 ≡ raise e
    → is_not_found e ≡ false

module _ {W : Type 0} (list_text : List String → String)
    (providers : Dict (ProviderInterface W)) where
  -- The exception that is left when no name is registered: the one of the last name.
  abbrev pub last_missing : Option Exception → List String → Option Exception
  last_missing last [] = last
  last_missing last (id ∷ ids) = last_missing (some (not_registered list_text providers id)) ids

  -- What the loop comes to, for the first name that is registered or for none.
  abbrev pub chain_answer :
      ProviderRequest
      → Option Exception
      → W
      → Option (String × ProviderInterface W)
      → Outcome ProviderResponse × W
  chain_answer request missing w (some (id, provider)) =
      answer id (provider.generate (addressed id request) w)
  chain_answer request missing w none = (raise_last missing, w)

  try_chain-found :
      (request : ProviderRequest) (ids : List String) (last : Option Exception) (w : W)
      (id : String) (p : ProviderInterface W)
      → IsDirect providers
      → Dict.get providers id ≡ some p
      → try_chain list_text providers request (id ∷ ids) last w
        ≡ answer id (p.generate (addressed id request) w)
  unfolding try_chain resolve
  try_chain-found request ids last w id p direct e =
      let called = p.generate (rebind id request) w in
      elim (Outcome-cases called.0) [
        | inl (r, returned) ↦ rw (e, try_chain, resolve, returned, normalize_lem id r)
        | inr (x, raised) ↦
            let passed = direct id p (rebind id request) w x e raised in
            rw (e, try_chain, resolve, raised, passed)
      ]
      ∙ ap (λ r. answer id (p.generate r w)) (rebind-addressed id request)

  try_chain-first_registered :
      (request : ProviderRequest) (ids : List String) (last : Option Exception) (w : W)
      → IsDirect providers
      → try_chain list_text providers request ids last w
        ≡ chain_answer request (last_missing last ids) w (first_registered providers ids)
  unfolding try_chain resolve
  try_chain-first_registered request [] last w direct = refl
  try_chain-first_registered request (j ∷ ids) last w direct =
      elim (Option-cases (Dict.get providers j)) [
        | inl e ↦
            rw (e, try_chain, resolve, first_registered)
              (try_chain-first_registered request ids (some (not_registered list_text providers j))
                w direct)
        | inr (p, e) ↦ try_chain-found request ids last w j p direct e ∙ rw (e, first_registered)
      ]

  -- If no registered provider raises the gateway's own exception, a request is answered by the first
  -- name of the chain that is registered, with the request and the response under that name, whether
  -- that provider returns or raises; if no name is registered, the exception for the last one is raised and
  -- the state of the providers stays as it is.
  pub generate-first_registered :
      (request : ProviderRequest) (fallback_provider_ids : List String) (w : W)
      → IsDirect providers
      → generate list_text providers request fallback_provider_ids w
        ≡ chain_answer request
            (last_missing none (request.config.provider_id ∷ fallback_provider_ids))
            w
            (first_registered providers (request.config.provider_id ∷ fallback_provider_ids))
  unfolding generate
  generate-first_registered request fallback_provider_ids w direct =
      try_chain-first_registered request (request.config.provider_id ∷ fallback_provider_ids) none w
        direct
