-- ===== src/Prompts/Builder.antt =====
-- totalrecall/prompts/builder.py: the messages that ask for code. The memory wrapper is given to the
-- builder; here its `get` is an argument, over the wrapper's state `W`. `dumps` is `json.dumps` with an
-- indentation of two.
use totalrecall.Common.{List, [], ◌∷◌, ◌⊕◌, Option, none, some, map, is_empty, take, if◌then◌else◌}
use totalrecall.Common.Text.{String, ◌++◌, join, truthy}
use totalrecall.Common.Json.{Json}
use totalrecall.Common.Json
use totalrecall.Common.Outcome.{Outcome, ok, raise}
use totalrecall.Generation.Models.{
  AutomationPattern, GenerationRequest, JiraStory, JiraAcceptanceCriterion, RagChunk,
  GenerationScope, language_text, framework_text,
}
use totalrecall.Skills.{SkillDefinition, SkillRegistry}
use totalrecall.Skills
use totalrecall.Memory.Models.{MemoryEntry, MemoryGetRequest}
use totalrecall.Context.Models.{ContextPlan, SelectedSkill, SelectedMemory}
use totalrecall.Providers.Models.{ProviderRole, ProviderMessage}
use totalrecall.Prompts.{new_message}
use totalrecall.Validation.{json_texts}

-- An object with one field after the other, and a text's schema.
abbrev pub string_schema : Json
string_schema = Json.obj (Json.field "type" (Json.str "string") Json.end)

unfoldable pub artifact_schema : Json
artifact_schema =
    let item = Json.obj (
      Json.field "type" (Json.str "object") (
        Json.field "required"
          (Json.arr (json_texts ("path" ∷ "artifact_type" ∷ "language" ∷ "content" ∷ [])))
          (Json.field "properties"
            (Json.obj (
              Json.field "path" string_schema (
                Json.field "artifact_type" string_schema (
                  Json.field "language" string_schema
                    (Json.field "content" string_schema Json.end)))))
            Json.end))) in
    Json.obj (
      Json.field "type" (Json.str "object") (
        Json.field "required" (Json.arr (json_texts ("artifacts" ∷ []))) (
          Json.field "properties"
            (Json.obj (
              Json.field "artifacts"
                (Json.obj (Json.field "type" (Json.str "array") (Json.field "items" item Json.end)))
                Json.end))
            Json.end)))

abbrev pub role_intro : String
role_intro =
    "You are TotalRecall, an expert test automation code generator. Your task is to generate clean, maintainable test automation artifacts that follow the project's established patterns and conventions."

abbrev pub pattern_text : AutomationPattern → String
pattern_text AutomationPattern.pom = "pom"

abbrev pub output_instruction : (Json → String) → String
output_instruction dumps =
    "Respond ONLY with a valid JSON object matching this schema:\n"
    ++ (dumps artifact_schema
        ++ "\n\nDo not include explanations, markdown fences, or any text outside the JSON object.")

-- The lines for a skill of the plan.
unfoldable pub skill_lines : SkillDefinition → List String
skill_lines skill =
    ("## Framework: "
        ++ (framework_text skill.framework ++ (" / " ++ language_text skill.language)))
      ∷ ("Pattern: " ++ pattern_text skill.pattern)
      ∷ (if is_empty skill.generation_rules
          then []
          else "### Generation Rules" ∷ map (λ rule. "- " ++ rule) skill.generation_rules)
    ⊕ ("" ∷ [])

-- The loop over the selected skills: those that the registry does not have are left out.
unfoldable pub skills_lines : SkillRegistry → List SelectedSkill → List String
unfolding skill_lines
skills_lines skills [] = []
skills_lines skills (selected ∷ rest) = elim (Skills.get skills selected.skill_id) [
  | raise e ↦ skills_lines skills rest
  | ok skill ↦ skill_lines skill ⊕ skills_lines skills rest
]

abbrev pub chunks_lines : List RagChunk → List String
chunks_lines [] = []
chunks_lines (chunk ∷ chunks) = chunk.chunk_text ∷ "" ∷ chunks_lines chunks

abbrev pub guidance_lines : List RagChunk → List String
guidance_lines chunks =
    if is_empty chunks
    then []
    else "## Testing Guidance from Knowledge Base" ∷ chunks_lines (take 3 chunks)

unfoldable pub build_system : (Json → String) → SkillRegistry → ContextPlan → String
unfolding skills_lines
build_system dumps skills plan = join "\n" (
    (role_intro ∷ "" ∷ [])
    ⊕ skills_lines skills plan.selected_skills
    ⊕ guidance_lines plan.rag_chunks
    ⊕ ("## Output Format" ∷ output_instruction dumps ∷ []))

-- `criterion` is the line of a criterion.
unfoldable pub story_lines : (JiraAcceptanceCriterion → String) → Option JiraStory → List String
story_lines criterion none = []
story_lines criterion (some story) =
    ("## JIRA Story"
      ∷ ("Key: " ++ story.jira_key)
      ∷ ("Summary: " ++ story.summary)
      ∷ (if truthy story.description then ("Description: " ++ story.description) ∷ [] else []))
    ⊕ (if is_empty story.acceptance_criteria
        then []
        else "### Acceptance Criteria" ∷ map criterion story.acceptance_criteria)
    ⊕ ("" ∷ [])

unfoldable pub scope_lines : GenerationScope → List String
scope_lines scope =
    ("## Scope" ∷ ("Domain: " ++ scope.domain) ∷ [])
    ⊕ elim scope.route [
      | none ↦ []
      | some route ↦ if truthy route then ("Route: " ++ route) ∷ [] else []
    ]
    ⊕ (if is_empty scope.tags then [] else ("Tags: " ++ join ", " scope.tags) ∷ [])
    ⊕ ("" ∷ [])

abbrev pub memory_line : MemoryEntry → String
memory_line entry = "- " ++ (entry.summary ++ (": " ++ entry.knowledge))

abbrev pub memory_request : GenerationRequest → SelectedMemory → MemoryGetRequest
memory_request request selected = record {
  tenant_id = request.tenant_id;
  application_id = request.application_id;
  entity_id = selected.memory_id;
}

module _ {W : Type 0} (get : MemoryGetRequest → W → Outcome (Option MemoryEntry) × W) where
  -- The line of one selected memory: none when the read raises or finds nothing.
  unfoldable pub read_memory : GenerationRequest → SelectedMemory → W → List String × W
  read_memory request selected w =
      let (outcome, w') = get (memory_request request selected) w in
      (elim outcome [ raise e ↦ [] | ok none ↦ [] | ok (some entry) ↦ memory_line entry ∷ [] ], w')

  unfoldable pub read_memories : GenerationRequest → List SelectedMemory → W → List String × W
  unfolding read_memory
  read_memories request [] w = ([], w)
  read_memories request (selected ∷ rest) w =
      let (line, w1) = read_memory request selected w in
      let (lines, w2) = read_memories request rest w1 in (line ⊕ lines, w2)

  abbrev pub context_lines : List String → List String
  context_lines memory_texts =
      if is_empty memory_texts then [] else ("## Project Context" ∷ memory_texts) ⊕ ("" ∷ [])

  unfoldable pub build_user : GenerationRequest → ContextPlan → W → String × W
  unfolding read_memories scope_lines story_lines
  build_user request plan w =
      let (memory_texts, w') = read_memories request plan.selected_memories w in
      (
        join "\n" (
            story_lines (λ ac. "- " ++ ac.text) plan.jira_story
            ⊕ context_lines memory_texts
            ⊕ scope_lines request.scope
            ⊕ ("## Request" ∷ request.prompt ∷ [])),
        w',
      )

  unfoldable pub build :
      (Json → String)
      → SkillRegistry
      → GenerationRequest
      → ContextPlan
      → W
      → List ProviderMessage × W
  unfolding build_user build_system
  build dumps skills request plan w =
      let (user_content, w') = build_user request plan w in
      (
        new_message ProviderRole.system (build_system dumps skills plan)
            ∷ new_message ProviderRole.user user_content
            ∷ [],
        w',
      )
