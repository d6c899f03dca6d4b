-- ===== src/Prompts/Isolation.antt =====
-- totalrecall/prompts/builder.py: what the messages of a request depend on.
use totalrecall.Common.{List, [], ◌∷◌, Option, ◌≡◌, refl}
use totalrecall.Common.Text.{String}
use totalrecall.Common.Json.{Json}
use totalrecall.Common.Outcome.{Outcome}
use totalrecall.Generation.Models.{GenerationRequest}
use totalrecall.Skills.{SkillRegistry}
use totalrecall.Memory.Models.{MemoryEntry, MemoryGetRequest}
use totalrecall.Context.Models.{ContextPlan, SelectedMemory}
use totalrecall.Prompts.Builder.{read_memory, read_memories, build_user, build, memory_request}

-- The reads of a wrapper's memory.
abbrev pub Reader : Type 0 → Type 0
Reader W = MemoryGetRequest → W → Outcome (Option MemoryEntry) × W

-- Two readers agree on the memories of a tenant's application.
abbrev pub AgreeFor : {W : Type 0} → String → String → Reader W → Reader W → Type 0
AgreeFor {W} tenant_id application_id f g =
    (entity_id : String) (w : W)
    → f (record { tenant_id = tenant_id; application_id = application_id; entity_id = entity_id }) w
      ≡ g (record { tenant_id = tenant_id; application_id = application_id; entity_id = entity_id })
          w

module _ {W : Type 0} (f g : Reader W) where
  read_memories-agree :
      (request : GenerationRequest) (memories : List SelectedMemory) (w : W)
      → AgreeFor request.tenant_id request.application_id f g
      → read_memories f request memories w ≡ read_memories g request memories w
  unfolding read_memories read_memory
  read_memories-agree request [] w agree = refl
  read_memories-agree request (m ∷ memories) w agree =
      let w' = (g (memory_request request m) w).1 in
      rw (agree m.memory_id w, read_memories-agree request memories w' agree) refl

  -- If two memories agree on the entries of the request's tenant and application, then the messages
  -- that are built from them for a plan, and the state that the reads leave, are the same, whatever
  -- other tenants and applications have stored.
  pub build-agree :
      (dumps : Json → String) (skills : SkillRegistry) (request : GenerationRequest)
      (plan : ContextPlan) (w : W)
      → AgreeFor request.tenant_id request.application_id f g
      → build f dumps skills request plan w ≡ build g dumps skills request plan w
  unfolding build build_user
  build-agree dumps skills request plan w agree =
      rw (read_memories-agree request plan.selected_memories w agree) refl
