-- ===== src/Generation/Blocking.antt =====
-- totalrecall/generation/orchestrator.py: requests that end before a provider is asked.
use totalrecall.Common.{none, List, [], ◌∷◌, ◌≡◌}
use totalrecall.Common.Text.{String}
use totalrecall.Common.Dict
use totalrecall.Common.Dict.{Dict}
use totalrecall.Common.Outcome.{Exception}
use totalrecall.Generation.Models.{GenerationRequest}
use totalrecall.Providers
use totalrecall.Providers.{not_registered}
use totalrecall.Providers.Chain.{first_registered}
use totalrecall.Generation.Orchestrator.{Libraries, GenerationOrchestrator}

-- The last name of a chain.
abbrev pub last_of : String → List String → String
last_of id [] = id
last_of id (j ∷ ids) = last_of j ids

module _ {W : Type 0} (lib : Libraries) (o : GenerationOrchestrator W) where
  -- No name of the request's chain is registered.
  abbrev pub IsUnserved : GenerationRequest → Type 0
  IsUnserved request =
      first_registered o.providers
        (request.provider.provider_id ∷ request.provider.fallback_provider_ids)
      ≡ none

  abbrev pub unserved : GenerationRequest → Exception
  unserved request =
      not_registered lib.list_text o.providers
        (last_of request.provider.provider_id request.provider.fallback_provider_ids)
