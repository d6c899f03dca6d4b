-- ===== src/Providers/Accounts.antt =====
-- totalrecall/providers/normalizer.py: every element of an answer is an artifact or an error.
use totalrecall.Common.{
  ℕ, suc, ◌+◌, Option, none, some, List, [], ◌∷◌, length, ◌≡◌, refl, sym, ◌∙◌, ap, arith,
  Bool-cases, inl, inr, length-append, subst,
}
use totalrecall.Common.Text.{String}
use totalrecall.Common.Dict
use totalrecall.Common.Dict.{Dict}
use totalrecall.Common.Json.{Json, entries, elements}
use totalrecall.Common.Outcome.{Outcome, ok, raise, Outcome-cases, ok-injective}
use totalrecall.Errors.{ServiceError}
use totalrecall.Generation.Models.{GeneratedArtifact, artifact_type_text, language_text}
use totalrecall.Providers.Models.{ProviderResponse}
use totalrecall.Providers.Normalizer.{
  Parsed, find_value, all_artifact_types, all_languages, field_of, new_artifact, parse_fields,
  parse_artifact, parse_items, normalize_array, normalize_payload, normalize, gather,
  is_decode_error, not_json,
}

-- The artifacts and the errors of an element.
abbrev pub weight : Parsed → ℕ
weight (none, errors) = length errors
weight (some artifact, errors) = suc (length errors)

-- A result is one artifact or one error.
abbrev pub IsOne : Outcome Parsed → Type 0
IsOne (ok parsed) = weight parsed ≡ 1
IsOne (raise e) = Unit

-- The array under a key, and an answer's array of artifacts.
abbrev pub array_in : Option Json → Option (List Json)
array_in (some (Json.arr items)) = some (elements items)
array_in _ = none

abbrev pub array_of : Json → Option (List Json)
array_of (Json.obj fields) = array_in (Dict.get (entries fields) "artifacts")
array_of _ = none

abbrev pub due_in : Option (List Json) → ℕ
due_in none = 1
due_in (some items) = length items

-- What there is to account for: the elements of the array, or the failure to find one.
abbrev pub due : Outcome Json → ℕ
due (ok payload) = due_in (array_of payload)
due (raise e) = 1

module _ (loads : String → Outcome Json) (py_str : Json → String) (nat_text : ℕ → String)
    (trim : String → String) where
  parse_fields-IsOne :
      (index : ℕ) (item : Dict Json) → IsOne (parse_fields loads py_str nat_text trim index item)
  unfolding parse_fields new_artifact
  parse_fields-IsOne index item =
      elim (Outcome-cases
        (find_value artifact_type_text all_artifact_types (field_of item "artifact_type"))) [
          | inr (x, e) ↦ ground (arith, e)
          | inl (none, e) ↦ ground (arith, e)
          | inl (some t, e) ↦
              elim (Outcome-cases
                (find_value language_text all_languages (field_of item "language"))) [
                  | inr (x, f) ↦ ground (arith, e, f)
                  | inl (none, f) ↦ ground (arith, e, f)
                  | inl (some l, f) ↦ ground (arith, e, f)
                ]
        ]

  parse_artifact-IsOne :
      (index : ℕ) (item : Json) → IsOne (parse_artifact loads py_str nat_text trim index item)
  unfolding parse_artifact
  parse_artifact-IsOne index (Json.obj fields) =
      ground (arith, parse_fields-IsOne index (entries fields))
  parse_artifact-IsOne index Json.null = refl
  parse_artifact-IsOne index (Json.bool b) = refl
  parse_artifact-IsOne index (Json.int z) = refl
  parse_artifact-IsOne index (Json.float f) = refl
  parse_artifact-IsOne index (Json.str s) = refl
  parse_artifact-IsOne index (Json.arr xs) = refl

  gather-weight :
      (p : Parsed) (r : List GeneratedArtifact × List ServiceError)
      → length (gather loads py_str nat_text trim p r).0
          + length (gather loads py_str nat_text trim p r).1
        ≡ weight p + (length r.0 + length r.1)
  gather-weight (none, errors) r = omega (arith, length-append errors r.1)
  gather-weight (some artifact, errors) r = omega (arith, length-append errors r.1)

  parse_items-count :
      (index : ℕ) (items : List Json) (r : List GeneratedArtifact × List ServiceError)
      → parse_items loads py_str nat_text trim index items ≡ ok r
      → length r.0 + length r.1 ≡ length items
  unfolding parse_items
  parse_items-count index [] r h = sym (ap (λ r. length r.0 + length r.1) (ok-injective h))
  parse_items-count index (item ∷ items) r h =
      elim (Outcome-cases (parse_artifact loads py_str nat_text trim index item)) [
        | inr (x, e) ↦ ground (arith, e, h)
        | inl (p, e) ↦
            elim (Outcome-cases (parse_items loads py_str nat_text trim (suc index) items)) [
              | inr (x, f) ↦ ground (arith, e, f, h)
              | inl (rest, f) ↦
                  let same : gather loads py_str nat_text trim p rest ≡ r =
                    ok-injective (ground (arith, e, f, h)) in
                  let one = subst IsOne e (parse_artifact-IsOne index item) in
                  let counted = parse_items-count (suc index) items rest f in
                  sym (ap (λ r. length r.0 + length r.1) same)
                  ∙ gather-weight p rest
                  ∙ omega (arith, one, counted)
            ]
      ]

  one_failure :
      (e : ServiceError) (r : List GeneratedArtifact × List ServiceError)
      → ok ([], e ∷ []) ≡ ok r
      → length r.0 + length r.1 ≡ 1
  one_failure e r h = sym (ap (λ r. length r.0 + length r.1) (ok-injective h))

  normalize_array-count :
      (payload : Dict Json) (value : Option Json) (r : List GeneratedArtifact × List ServiceError)
      → normalize_array loads py_str nat_text trim payload value ≡ ok r
      → length r.0 + length r.1 ≡ due_in (array_in value)
  unfolding normalize_array
  normalize_array-count payload none r h = one_failure _ r h
  normalize_array-count payload (some (Json.arr items)) r h =
      parse_items-count 0 (elements items) r h
  normalize_array-count payload (some Json.null) r h = one_failure _ r h
  normalize_array-count payload (some (Json.bool b)) r h = one_failure _ r h
  normalize_array-count payload (some (Json.int z)) r h = one_failure _ r h
  normalize_array-count payload (some (Json.float f)) r h = one_failure _ r h
  normalize_array-count payload (some (Json.str s)) r h = one_failure _ r h
  normalize_array-count payload (some (Json.obj fs)) r h = one_failure _ r h

  normalize_payload-count :
      (payload : Json) (r : List GeneratedArtifact × List ServiceError)
      → normalize_payload loads py_str nat_text trim payload ≡ ok r
      → length r.0 + length r.1 ≡ due (ok payload)
  unfolding normalize_payload
  normalize_payload-count (Json.obj fields) r h =
      normalize_array-count (entries fields) (Dict.get (entries fields) "artifacts") r h
  normalize_payload-count Json.null r h = one_failure _ r h
  normalize_payload-count (Json.bool b) r h = one_failure _ r h
  normalize_payload-count (Json.int z) r h = one_failure _ r h
  normalize_payload-count (Json.float f) r h = one_failure _ r h
  normalize_payload-count (Json.str s) r h = one_failure _ r h
  normalize_payload-count (Json.arr xs) r h = one_failure _ r h

  -- If an answer is normalized without an exception, then the artifacts and the errors together are
  -- as many as the elements of the answer's array; they are one in all when the answer is not JSON, is
  -- not an object or has no array of artifacts.
  pub normalize-count :
      (response : ProviderResponse) (r : List GeneratedArtifact × List ServiceError)
      → normalize loads py_str nat_text trim response ≡ ok r
      → length r.0 + length r.1 ≡ due (loads response.raw_text)
  unfolding normalize
  normalize-count response r h = elim (Outcome-cases (loads response.raw_text)) [
    | inl (payload, e) ↦ rw e (normalize_payload-count payload r (ground (arith, e, h)))
    | inr (x, e) ↦ elim (Bool-cases (is_decode_error x)) [
      | inl f ↦ rw e (one_failure (not_json response.raw_text x) r (ground (arith, e, f, h)))
      | inr f ↦ ground (arith, e, f, h)
    ]
  ]
