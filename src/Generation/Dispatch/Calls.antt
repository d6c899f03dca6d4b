-- ===== src/Generation/Dispatch/Calls.antt =====
-- totalrecall/generation/orchestrator.py: the calls of the gateway and of the adapters keep a property
-- of the state.
use totalrecall.Common.{
  Option, none, some, List, [], ◌∷◌, ◌≡◌, refl, inl, inr, sym, ◌∙◌, subst, arith, Bool-cases,
  Option-cases,
}
use totalrecall.Common.Text.{String}
use totalrecall.Common.Dict
use totalrecall.Common.Dict.{Dict}
use totalrecall.Common.Outcome.{Exception, Outcome-cases}
use totalrecall.Generation.Models.{GenerationRequest, ReformulatedIntent}
use totalrecall.Context
use totalrecall.Context.Models.{ContextPlan, SelectedMemory}
use totalrecall.Providers
use totalrecall.Providers.{is_not_found, rebind, try_chain, resolve}
use totalrecall.Providers.Models.{ProviderMessage, ProviderRequest, ProviderResponse}
use totalrecall.Prompts.Builder
use totalrecall.Generation.Orchestrator.{
  Libraries, GenerationOrchestrator, Identifiers, reformulated, fetch_jira, fetch_rag, fetch_inputs,
  make_plan, build_messages, provider_request, ask, refined,
}
use totalrecall.Generation.Dispatch.{IsRedacted, Sendable, Keeps}

-- The messages and the tenant of a request do not depend on the provider's name.
rebind-messages :
    (id : String) (sent : ProviderRequest)
    → ((rebind id sent).messages ≡ sent.messages) × ((rebind id sent).tenant_id ≡ sent.tenant_id)
unfolding rebind
rebind-messages id sent = ground arith

module _ {W : Type 0} (lib : Libraries) (o : GenerationOrchestrator W) (request : GenerationRequest)
    (Inv : W → Type 0) (keeps : Keeps W lib o request Inv) where
  rebind-Sendable :
      (id : String) (sent : ProviderRequest)
      → Sendable lib request sent
      → Sendable lib request (rebind id sent)
  rebind-Sendable id sent (tenant, redacted) =
      let (messages, same_tenant) = rebind-messages id sent in
      (same_tenant ∙ tenant, subst (IsRedacted lib) (sym messages) redacted)

  try_chain-keeps :
      (sent : ProviderRequest) (ids : List String) (last : Option Exception) (w : W)
      → Sendable lib request sent
      → Inv w
      → Inv (try_chain lib.list_text o.providers sent ids last w).1
  unfolding try_chain resolve
  try_chain-keeps sent [] last w sendable inv = inv
  try_chain-keeps sent (id ∷ ids) last w sendable inv =
      elim (Option-cases (Dict.get o.providers id)) [
        | inl e ↦ rw (e, try_chain, resolve) (try_chain-keeps sent ids _ w sendable inv)
        | inr (p, e) ↦
            let sent' = rebind id sent in
            let sendable' = rebind-Sendable id sent sendable in
            let kept = keeps.provider id p sent' w e sendable' inv in
            elim (Outcome-cases (p.generate sent' w).0) [
              | inl (r, f) ↦ rw (e, try_chain, resolve, f) kept
              | inr (x, f) ↦ elim (Bool-cases (is_not_found x)) [
                | inl g ↦
                    rw (e, try_chain, resolve, f, g)
                      (try_chain-keeps sent' ids (some x) (p.generate sent' w).1 sendable' kept)
                | inr g ↦ rw (e, try_chain, resolve, f, g) kept
              ]
            ]
      ]

  pub ask-keeps :
      (ids : Identifiers) (messages : List ProviderMessage) (w : W)
      → IsRedacted lib messages
      → Inv w
      → Inv (ask lib o ids request messages w).1
  unfolding ask Providers.generate
  ask-keeps ids messages w redacted inv =
      try_chain-keeps (provider_request lib o ids request messages)
        (request.provider.provider_id ∷ request.provider.fallback_provider_ids) none w
        (refl, redacted) inv

  pub reformulated-keeps : (w : W) → Inv w → Inv (reformulated lib o request w).1
  unfolding reformulated
  reformulated-keeps w inv = elim (Option-cases o.reformulator) [
    | inl e ↦ ground (arith, e, inv)
    | inr (f, e) ↦
        let kept =
          keeps.reformulator f request.prompt request.jira_key request.test_types w e inv in
        elim (Outcome-cases (f request.prompt request.jira_key request.test_types w).0) [
          | inl (i, r) ↦ ground (arith, e, r, inv, kept)
          | inr (x, r) ↦ ground (arith, e, r, inv, kept)
        ]
  ]

  fetch_jira-keeps : (w : W) → Inv w → Inv (fetch_jira lib o request w).1
  unfolding fetch_jira
  fetch_jira-keeps w inv = elim (Option-cases o.fetch_story) [
    | inl e ↦ ground (arith, e, inv)
    | inr (f, e) ↦ elim (Option-cases request.jira_key) [
      | inl k ↦ ground (arith, e, k, inv)
      | inr (key, k) ↦ ground (arith, e, k, inv, keeps.fetch_story f key w e inv)
    ]
  ]

  fetch_rag-keeps : (w : W) → Inv w → Inv (fetch_rag lib o request w).1
  unfolding fetch_rag
  fetch_rag-keeps w inv = elim (Option-cases o.retrieve) [
    | inl e ↦ ground (arith, e, inv)
    | inr (f, e) ↦ ground (arith, e, keeps.retrieve f request.prompt request.tenant_id 5 w e inv)
  ]

  pub make_plan-keeps : (ids : Identifiers) (w : W) → Inv w → Inv (make_plan lib o ids request w).1
  unfolding make_plan fetch_inputs Context.plan Context.select_memories
  make_plan-keeps ids w inv =
      keeps.search _ _ (fetch_rag-keeps (fetch_jira lib o request w).1 (fetch_jira-keeps w inv))

  read_memories-keeps :
      (memories : List SelectedMemory) (w : W)
      → Inv w
      → Inv (Builder.read_memories o.get request memories w).1
  unfolding Builder.read_memories Builder.read_memory
  read_memories-keeps [] w inv = inv
  read_memories-keeps (m ∷ memories) w inv =
      let r = Builder.memory_request request m in
      read_memories-keeps memories (o.get r w).1 (keeps.get r w inv)

  pub build_messages-keeps :
      (plan : ContextPlan) (intent : Option ReformulatedIntent) (w : W)
      → Inv w
      → Inv (build_messages lib o request plan intent w).1
  unfolding build_messages Builder.build Builder.build_user
  build_messages-keeps plan none w inv = read_memories-keeps plan.selected_memories w inv
  build_messages-keeps plan (some i) w inv =
      ground (arith, inv, read_memories-keeps plan.selected_memories w inv)

  pub refined-keeps :
      (ids : Identifiers) (response : ProviderResponse) (w : W)
      → Inv w
      → Inv (refined lib o ids response w).1
  unfolding refined
  refined-keeps ids response w inv = elim (Option-cases o.tone_checker) [
    | inl e ↦ ground (arith, e, inv)
    | inr (f, e) ↦ ground (arith, e, keeps.tone_checker f response.raw_text ids.request_id w e inv)
  ]
