-- ===== src/Providers/Normalizer.antt =====
-- totalrecall/providers/normalizer.py: the artifacts and the errors in a provider's answer. `loads` is
-- `json.loads`, `py_str` the text of a value, `nat_text` that of a number, and `trim` takes the
-- whitespace off both ends of a text, as the models do with their texts.
use totalrecall.Common.{
  ℕ, suc, Bool, Option, none, some, List, [], ◌∷◌, ◌⊕◌, map, filter, not, is_empty, if◌then◌else◌,
}
use totalrecall.Common.Text.{String, ◌++◌, ◌==◌, join, truthy, sorted, take_chars}
use totalrecall.Common.Dict
use totalrecall.Common.Dict.{Dict}
use totalrecall.Common.Json.{Json, entries, elements}
use totalrecall.Common.Outcome.{
  Outcome, ok, raise, Exception, other, exception_text, exception_name, ◌>>=◌,
}
use totalrecall.Errors.{ServiceError, service_error, validation_failed}
use totalrecall.Generation.Models.{
  ArtifactType, Language, GeneratedArtifact, artifact_type_text, language_text,
}
use totalrecall.Providers.Models.{ProviderResponse}
use totalrecall.Validation.{json_texts}

abbrev pub all_artifact_types : List ArtifactType
all_artifact_types =
    ArtifactType.page_object ∷ ArtifactType.test_spec ∷ ArtifactType.fixture ∷ ArtifactType.config
    ∷ ArtifactType.support ∷ []

abbrev pub all_languages : List Language
all_languages = Language.python ∷ Language.typescript ∷ Language.java ∷ []

-- The member of an enumeration with that value.
unfoldable pub find_text {ℓ} : {A : Type ℓ} → (A → String) → String → List A → Option A
find_text text s [] = none
find_text text s (x ∷ xs) = if text x == s then some x else find_text text s xs

-- `raw in values` and `Enum(raw)`: a value that has no hash raises.
unfoldable pub find_value {ℓ} : {A : Type ℓ} → (A → String) → List A → Json → Outcome (Option A)
unfolding find_text
find_value text values (Json.str s) = ok (find_text text s values)
find_value text values (Json.arr xs) = raise (other "TypeError" "unhashable type: 'list'")
find_value text values (Json.obj fs) = raise (other "TypeError" "unhashable type: 'dict'")
find_value text values _ = ok none

abbrev pub invalid : String → ServiceError
invalid message = service_error validation_failed message

abbrev pub invalid_with : String → Dict Json → ServiceError
invalid_with message details = record (invalid message) { details = details }

abbrev pub required_fields : List String
required_fields = "path" ∷ "artifact_type" ∷ "language" ∷ "content" ∷ []

-- `[f for f in fields if f not in item]`
unfoldable pub missing_fields : Dict Json → List String → List String
unfolding Dict.has
missing_fields item fields = filter (λ f. not (Dict.has item f)) fields

-- `item[key]`, after the check that the key is there.
abbrev pub field_of : Dict Json → String → Json
field_of item key = elim (Dict.get item key) [ none ↦ Json.null | some v ↦ v ]

abbrev pub Parsed : Type 0
Parsed = Option GeneratedArtifact × List ServiceError

abbrev pub rejected : ServiceError → Outcome Parsed
rejected e = ok (none, e ∷ [])

abbrev pub is_decode_error : Exception → Bool
is_decode_error e = exception_name e == "JSONDecodeError"

abbrev pub not_json : String → Exception → ServiceError
not_json raw_text e =
    invalid_with ("Provider response is not valid JSON: " ++ exception_text e)
      (("raw_text_preview", Json.str (take_chars 200 raw_text)) ∷ [])

module _ (loads : String → Outcome Json) (py_str : Json → String) (nat_text : ℕ → String)
    (trim : String → String) where
  -- `GeneratedArtifact(...)`: the model refuses an empty path.
  unfoldable pub new_artifact :
      String → ArtifactType → Language → String → Outcome GeneratedArtifact
  new_artifact path artifact_type language content =
      if truthy (trim path)
      then ok (record {
        path = trim path;
        language = language;
        content = trim content;
        artifact_type = artifact_type;
      })
      else raise (other "ValidationError" "path: String should have at least 1 character")

  abbrev pub prefix : ℕ → String
  prefix index = "artifacts[" ++ (nat_text index ++ "]")

  unfoldable pub parse_fields : ℕ → Dict Json → Outcome Parsed
  unfolding find_value new_artifact
  parse_fields index item = do
    artifact_type ← find_value artifact_type_text all_artifact_types (field_of item "artifact_type")
    elim artifact_type [
      | none ↦ rejected (
          invalid_with
            (prefix index
              ++ (": unknown artifact_type '" ++ (py_str (field_of item "artifact_type") ++ "'")))
            (("valid", Json.arr (json_texts (sorted (map artifact_type_text all_artifact_types))))
              ∷ []))
      | some type ↦ (do
        language ← find_value language_text all_languages (field_of item "language")
        elim language [
          | none ↦ rejected (
              invalid_with
                (prefix index
                  ++ (": unknown language '" ++ (py_str (field_of item "language") ++ "'")))
                (("valid", Json.arr (json_texts (sorted (map language_text all_languages)))) ∷ []))
          | some l ↦ (do
            artifact ←
                new_artifact (py_str (field_of item "path")) type l
                  (py_str (field_of item "content"))
            ok (some artifact, []))
        ])
    ]

  unfoldable pub parse_artifact : ℕ → Json → Outcome Parsed
  unfolding parse_fields missing_fields
  parse_artifact index (Json.obj fields) =
      let item = entries fields in
      let missing = missing_fields item required_fields in
      if is_empty missing
      then parse_fields index item
      else rejected (
          invalid_with (prefix index ++ (": missing required fields: " ++ join ", " missing))
            (("missing", Json.arr (json_texts missing)) ∷ []))
  parse_artifact index _ =
      rejected (invalid (prefix index ++ ": each artifact must be a JSON object"))

  -- The artifact that was found, in front of those of the rest, and the errors likewise.
  abbrev pub gather :
      Parsed
      → List GeneratedArtifact × List ServiceError
      → List GeneratedArtifact × List ServiceError
  gather (none, item_errors) (artifacts, errors) = (artifacts, item_errors ⊕ errors)
  gather (some artifact, item_errors) (artifacts, errors) =
      (artifact ∷ artifacts, item_errors ⊕ errors)

  unfoldable pub parse_items : ℕ → List Json → Outcome (List GeneratedArtifact × List ServiceError)
  unfolding parse_artifact
  parse_items index [] = ok ([], [])
  parse_items index (item ∷ items) = do
    parsed ← parse_artifact index item
    rest ← parse_items (suc index) items
    ok (gather parsed rest)

  abbrev pub failure : ServiceError → Outcome (List GeneratedArtifact × List ServiceError)
  failure e = ok ([], e ∷ [])

  abbrev pub keys_missing : List String → ServiceError
  keys_missing found =
      invalid_with "Provider response missing required \"artifacts\" key"
        (("keys_found", Json.arr (json_texts found)) ∷ [])

  -- The branches on what stands under the key.
  unfoldable pub normalize_array :
      Dict Json → Option Json → Outcome (List GeneratedArtifact × List ServiceError)
  unfolding parse_items
  normalize_array payload none = failure (keys_missing (Dict.keys payload))
  normalize_array payload (some (Json.arr items)) = parse_items 0 (elements items)
  normalize_array payload (some _) = failure (invalid "\"artifacts\" must be a JSON array")

  -- The branches on the payload.
  unfoldable pub normalize_payload : Json → Outcome (List GeneratedArtifact × List ServiceError)
  unfolding normalize_array
  normalize_payload (Json.obj fields) =
      let payload = entries fields in normalize_array payload (Dict.get payload "artifacts")
  normalize_payload _ = failure (keys_missing [])

  unfoldable pub normalize : ProviderResponse → Outcome (List GeneratedArtifact × List ServiceError)
  unfolding normalize_payload
  normalize response = elim (loads response.raw_text) [
    | ok payload ↦ normalize_payload payload
    | raise e ↦ if is_decode_error e then failure (not_json response.raw_text e) else raise e
  ]
