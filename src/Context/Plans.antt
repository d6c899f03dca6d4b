-- ===== src/Context/Plans.antt =====
-- The estimates of a plan.
use totalrecall.Common.{
  ℕ, ◌+◌, ◌-◌, ◌*◌, ◌/◌, ◌≤◌, max, [], map, length, take, drop, length-map, ◌≡◌, refl, arith,
}
use totalrecall.Common.Text.{String, word_count}
use mathlib.Core.List.{append-nil, map-map}
use totalrecall.Common.Int.{pos_part-sub_ℕ}
use totalrecall.Common.Outcome.{Outcome, ok, raise, Exception}
use totalrecall.Generation.Models.{GenerationRequest}
use totalrecall.Skills.{SkillRegistry}
use totalrecall.Memory.Models.{MemorySearchRequest, MemorySearchResult}
use totalrecall.Context.{
  MemorySelection, from_search, select_memories, select_skills, selected_memory, memory_request,
  skill_tokens, remaining, plan,
}
use totalrecall.Context.Models.{ContextPlan, RequestMetadata, ExternalPlanInputs}
use totalrecall.Context.Budget.{select_entries-affordable, from_search-affordable-le}

module _ {W : Type 0} (search : MemorySearchRequest → W → Outcome MemorySearchResult × W)
    (extract : GenerationRequest → RequestMetadata) (skills : SkillRegistry)
    (context_plan_id : String) (request : GenerationRequest) (request_id : String)
    (inputs : ExternalPlanInputs) (w : W) where
  -- The tokens left for memories, none when the overhead and the skill take them all.
  abbrev pub left : ℕ
  left = request.options.max_input_tokens - (300 + skill_tokens skills request)

  abbrev pub planned : ContextPlan
  planned = (plan search extract skills context_plan_id request request_id inputs w).0

  abbrev found : MemorySelection
  found =
      from_search (remaining skills request) (search (memory_request request (extract request)) w).0

  -- The estimate stays within the limit, but for the tokens of the prompt, which the budget of the
  -- memories leaves out, and for an overhead and a skill that exceed the limit by themselves.
  pub plan-fits :
      planned.token_budget.estimated_input_tokens
      ≤ word_count request.prompt
        + max request.options.max_input_tokens (300 + skill_tokens skills request)
  unfolding plan select_memories
  plan-fits = omega (
    arith,
    from_search-affordable-le (remaining skills request)
        (search (memory_request request (extract request)) w).0,
    pos_part-sub_ℕ request.options.max_input_tokens (300 + skill_tokens skills request),
  )

  -- The tokens saved are those of the memories left out, and the baseline is the estimate with them.
  pub plan-saved :
      (planned.token_budget.estimated_tokens_saved ≡ 60 * length found.exclusions)
      × (planned.token_budget.baseline_estimate
          ≡ planned.token_budget.estimated_input_tokens
            + planned.token_budget.estimated_tokens_saved)
  unfolding plan select_memories
  plan-saved = (omega arith, omega arith)

  -- When the search returns, the plan selects the first of the entries found, as many as fit into what
  -- the overhead and the skill leave of the limit at 60 tokens each, lists their identifiers, and
  -- saves the tokens of all the others.
  pub plan-returned :
      (r : MemorySearchResult)
      → (search (memory_request request (extract request)) w).0 ≡ ok r
      → (planned.selected_memories ≡ map selected_memory (take (left / 60) r.items))
        × (planned.memory_ids ≡ map (λ e. e.entity_id) (take (left / 60) r.items))
        × (planned.token_budget.estimated_tokens_saved ≡ 60 * length (drop (left / 60) r.items))
  unfolding plan select_memories
  plan-returned r returned =
      let size =
        pos_part-sub_ℕ request.options.max_input_tokens (300 + skill_tokens skills request) in
      rw (returned, select_entries-affordable, size, map-map, length-map) (refl, refl, omega arith)

  -- When the search raises, the plan is made all the same, without memories and without savings.
  pub plan-raised :
      (e : Exception)
      → (search (memory_request request (extract request)) w).0 ≡ raise e
      → (planned.selected_memories ≡ [])
        × (planned.excluded ≡ (select_skills skills request).exclusions)
        × (planned.token_budget.estimated_tokens_saved ≡ 0)
        × (planned.token_budget.estimated_input_tokens
            ≡ 300 + word_count request.prompt + skill_tokens skills request)
  unfolding plan select_memories
  plan-raised e raised = rw (raised, append-nil) (refl, refl, omega arith, omega arith)
