-- ===== src/TestGen/Packs.antt =====
-- totalrecall/testgen/pack/normalizer.py: the pack of test cases in an answer. `strip`, `splitlines`,
-- `loads` and `model_validate` are the libraries' functions; `field_order` runs through the set of the
-- required fields.
use totalrecall.Common.{
  Option, none, some, List, [], ◌∷◌, map, filter, not, is_empty, drop, if◌then◌else◌,
}
use totalrecall.Common.Text.{String, ◌++◌, ◌==◌, truthy, join, starts_with}
use totalrecall.Common.Dict
use totalrecall.Common.Json.{Json, entries}
use totalrecall.Common.Json
use totalrecall.Common.Outcome.{Outcome, ok, raise, exception_text}
use totalrecall.Errors.{ServiceError, service_error, normalization_failed}
use totalrecall.Generation.Models.{TestCasePack}
use totalrecall.Providers.Normalizer.{is_decode_error}

abbrev pub fence : String
fence = "```"

abbrev pub required_top_level : List String
required_top_level = "story_summary" ∷ "test_cases" ∷ []

-- A pack or none, and the errors.
abbrev pub PackResult : Type 0
PackResult = Option TestCasePack × List ServiceError

abbrev pub pack_error : String → ServiceError
pack_error message = service_error normalization_failed message

abbrev pub pack_failure : String → Outcome PackResult
pack_failure message = ok (none, pack_error message ∷ [])

-- `fields[key] = value` for a key that is not there.
unfoldable pub add_field : Json.Fields → String → Json → Json.Fields
add_field Json.end key value = Json.field key value Json.end
add_field (Json.field k v rest) key value = Json.field k v (add_field rest key value)

module _ (strip : String → String) (splitlines : String → List String)
    (loads : String → Outcome Json) (model_validate : Json → Outcome TestCasePack)
    (field_order : List String → List String) where
  -- The lines up to the last one that closes the fence; all of them when there is none. The first line
  -- is not looked at.
  unfoldable pub until_fence : List String → Option (List String)
  until_fence [] = none
  until_fence (line ∷ lines) = elim (until_fence lines) [
    | some kept ↦ some (line ∷ kept)
    | none ↦ if strip line == fence then some [] else none
  ]

  abbrev pub body_lines : List String → List String
  body_lines lines = elim (until_fence (drop 1 lines)) [ none ↦ drop 1 lines | some kept ↦ kept ]

  unfoldable pub strip_fences : String → String
  unfolding until_fence
  strip_fences raw_text =
      let text = strip raw_text in
      if starts_with text fence then join "\n" (body_lines (splitlines text)) else text

  -- `source_jira_key and "source_jira_key" not in data`
  unfoldable pub inject_key : Option String → Json.Fields → Json.Fields
  unfolding add_field Dict.has
  inject_key none fields = fields
  inject_key (some key) fields =
      if truthy key
      then (if Dict.has (entries fields) "source_jira_key"
          then fields
          else add_field fields "source_jira_key" (Json.str key))
      else fields

  abbrev pub missing_required : Json.Fields → List String
  missing_required fields =
      filter (λ f. not (Dict.has (entries fields) f)) (field_order required_top_level)

  unfoldable pub validate_pack : Json → Outcome PackResult
  validate_pack payload = elim (model_validate payload) [
    | ok pack ↦ ok (some pack, [])
    | raise e ↦ pack_failure ("Test case pack validation failed: " ++ exception_text e)
  ]

  unfoldable pub normalize_object : Json.Fields → Option String → Outcome PackResult
  unfolding validate_pack
  normalize_object fields source_jira_key =
      let errors =
        map (λ f. pack_error ("Missing required field: " ++ f)) (missing_required fields) in
      if is_empty errors
      then validate_pack (Json.obj (inject_key source_jira_key fields))
      else ok (none, errors)

  unfoldable pub normalize_json : Json → Option String → Outcome PackResult
  unfolding normalize_object
  normalize_json (Json.obj fields) source_jira_key = normalize_object fields source_jira_key
  normalize_json payload source_jira_key =
      pack_failure "Test case pack response must be a JSON object"

  unfoldable pub normalize : String → Option String → Outcome PackResult
  unfolding normalize_json
  normalize raw_text source_jira_key = elim (loads (strip_fences raw_text)) [
    | ok payload ↦ normalize_json payload source_jira_key
    | raise e ↦
        if is_decode_error e
        then pack_failure ("Invalid JSON in test case pack response: " ++ exception_text e)
        else raise e
  ]
