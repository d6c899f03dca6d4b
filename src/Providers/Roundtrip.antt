-- ===== src/Providers/Roundtrip.antt =====
-- totalrecall/providers/normalizer.py: an answer that lists artifacts is read as those artifacts.
use totalrecall.Common.{ℕ, suc, true, some, List, [], ◌∷◌, All, ◌≡◌, refl}
use totalrecall.Common.Text.{String, truthy}
use totalrecall.Common.Dict
use totalrecall.Common.Dict.{Dict}
use totalrecall.Common.Json.{Json, entries, elements}
use totalrecall.Common.Json
use totalrecall.Common.Outcome.{Outcome, ok}
use totalrecall.Generation.Models.{
  ArtifactType, Language, GeneratedArtifact, artifact_type_text, language_text,
}
use totalrecall.Providers.Models.{ProviderResponse}
use totalrecall.Providers.Normalizer.{
  find_text, find_value, all_artifact_types, all_languages, new_artifact, parse_fields,
  parse_artifact, parse_items, normalize_array, normalize_payload, normalize, missing_fields,
}

-- An artifact, and an answer, as the prompt's schema asks for them.
abbrev pub artifact_fields : GeneratedArtifact → Json.Fields
artifact_fields a = Json.field "path" (Json.str a.path) (
    Json.field "artifact_type" (Json.str (artifact_type_text a.artifact_type)) (
      Json.field "language" (Json.str (language_text a.language))
        (Json.field "content" (Json.str a.content) Json.end)))

unfoldable pub artifact_items : List GeneratedArtifact → Json.Items
artifact_items [] = Json.nil
artifact_items (a ∷ artifacts) = Json.cons (Json.obj (artifact_fields a)) (artifact_items artifacts)

abbrev pub answer_of : List GeneratedArtifact → Json
answer_of artifacts =
    Json.obj (Json.field "artifacts" (Json.arr (artifact_items artifacts)) Json.end)

find_value-artifact_type :
    (t : ArtifactType)
    → find_value artifact_type_text all_artifact_types (Json.str (artifact_type_text t))
      ≡ ok (some t)
unfolding find_value find_text artifact_type_text
find_value-artifact_type ArtifactType.page_object = refl
find_value-artifact_type ArtifactType.test_spec = refl
find_value-artifact_type ArtifactType.fixture = refl
find_value-artifact_type ArtifactType.config = refl
find_value-artifact_type ArtifactType.support = refl

find_value-language :
    (l : Language)
    → find_value language_text all_languages (Json.str (language_text l)) ≡ ok (some l)
unfolding find_value find_text language_text
find_value-language Language.python = refl
find_value-language Language.typescript = refl
find_value-language Language.java = refl

module _ (loads : String → Outcome Json) (py_str : Json → String) (nat_text : ℕ → String)
    (trim : String → String) where
  -- The artifact has a path, and nothing to strip from its texts.
  abbrev pub IsTrimmed : GeneratedArtifact → Type 0
  IsTrimmed a = (trim a.path ≡ a.path) × (truthy a.path ≡ true) × (trim a.content ≡ a.content)

  -- Python's text of a text is the text.
  abbrev pub IsText : Type 0
  IsText = (s : String) → py_str (Json.str s) ≡ s

  parse_artifact-encoded :
      (index : ℕ) (a : GeneratedArtifact)
      → IsText
      → IsTrimmed a
      → parse_artifact loads py_str nat_text trim index (Json.obj (artifact_fields a))
        ≡ ok (some a, [])
  unfolding parse_artifact parse_fields new_artifact missing_fields Dict.has Dict.get entries
  parse_artifact-encoded index a text (path, full, content) =
      rw
        (
          find_value-artifact_type a.artifact_type,
          find_value-language a.language,
          text a.path,
          text a.content,
          path,
          content,
          full,
        )
        refl

  parse_items-encoded :
      (index : ℕ) (artifacts : List GeneratedArtifact)
      → IsText
      → All IsTrimmed artifacts
      → parse_items loads py_str nat_text trim index (elements (artifact_items artifacts))
        ≡ ok (artifacts, [])
  unfolding parse_items artifact_items elements
  parse_items-encoded index [] text trimmed = refl
  parse_items-encoded index (a ∷ artifacts) text (first, rest) =
      rw
        (
          parse_artifact-encoded index a text first,
          parse_items-encoded (suc index) artifacts text rest,
        )
        refl

  -- If a provider's answer is read as the JSON that lists artifacts as the prompt's schema asks, each
  -- with a path and without whitespace around its texts, and the text of a JSON text is that text, then
  -- the answer is normalized to those artifacts, in their order and without an error.
  pub normalize-encoded :
      (response : ProviderResponse) (artifacts : List GeneratedArtifact)
      → IsText
      → All IsTrimmed artifacts
      → loads response.raw_text ≡ ok (answer_of artifacts)
      → normalize loads py_str nat_text trim response ≡ ok (artifacts, [])
  unfolding normalize normalize_payload normalize_array Dict.get entries
  normalize-encoded response artifacts text trimmed h =
      rw (h, normalize) (parse_items-encoded 0 artifacts text trimmed)
