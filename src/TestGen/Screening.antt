-- ===== src/TestGen/Screening.antt =====
-- totalrecall/testgen/guardrails: what a request and an answer must be like to pass.
use totalrecall.Common.{
  Bool, true, false, ◌&&◌, not, Option, none, some, List, [], ◌∷◌, ◌⊕◌, any, filter, is_empty, ◌≡◌,
  refl, arith, Bool-cases, inl, inr, ap, ◌∙◌,
}
use totalrecall.Common.Text.{String, ◌==◌, contains, eq_iff}
use totalrecall.Common.Dict
use totalrecall.Common.Dict.{Dict}
use totalrecall.Common.Json.{Json, entries}
use totalrecall.Common.Json
use totalrecall.Common.Outcome.{Outcome, ok}
use totalrecall.Generation.Models.{GenerationRequest, ReformulatedIntent}
use totalrecall.TestGen.Guardrails.{
  GuardrailResult, GuardrailViolation, bad_key, key_violations, mentions_testing, pii_patterns,
  pii_violations, check_input, allowed_top_keys, unknown_keys, check_data, check_output,
}

is_empty-append :
    (xs ys : List GuardrailViolation) → is_empty (xs ⊕ ys) ≡ (is_empty xs && is_empty ys)
is_empty-append [] ys = refl
is_empty-append (x ∷ xs) ys = refl

module _ (matches search : String → String → Bool) (lower : String → String) where
  -- A request's prompt has what a pattern looks for.
  abbrev pub has_pii : GenerationRequest → Bool
  has_pii request = any (λ pattern. search pattern request.prompt) pii_patterns

  pii_violations-empty :
      (patterns : List String) (prompt : String)
      → is_empty (pii_violations matches search lower patterns prompt)
        ≡ not (any (λ pattern. search pattern prompt) patterns)
  unfolding pii_violations
  pii_violations-empty [] prompt = refl
  pii_violations-empty (p ∷ patterns) prompt = ground (arith, pii_violations-empty patterns prompt)

  key_violations-empty :
      (key : Option String)
      → is_empty (key_violations matches search lower key) ≡ not (bad_key matches search lower key)
  key_violations-empty none = refl
  key_violations-empty (some key) = ground arith

  -- A request passes the rules for requests exactly when its key, if it has one, is the key of a Jira
  -- story, its prompt has a word of testing, and no pattern of personal data finds anything in it.
  pub check_input-passed :
      (request : GenerationRequest) (intent : Option ReformulatedIntent)
      → (check_input matches search lower request intent).passed ≡ (
          not (bad_key matches search lower request.jira_key)
          && (mentions_testing matches search lower request.prompt && not (has_pii request)))
  unfolding check_input
  check_input-passed request intent = ground (
    arith,
    key_violations-empty request.jira_key,
    pii_violations-empty pii_patterns request.prompt,
  )

unlisted-kept :
    (payload : Dict Json) (k : String)
    → contains k allowed_top_keys ≡ false
    → Dict.has payload k ≡ true
    → is_empty (filter (λ j. not (contains j allowed_top_keys)) (Dict.keys payload)) ≡ false
unfolding Dict.has Dict.get
unlisted-kept [] k unlisted here = ground (arith, here)
unlisted-kept ((j, v) ∷ payload) k unlisted here = elim (Bool-cases (j == k)) [
  | inl e ↦
      let same = (eq_iff j k).0 e in
      let unlisted_j : contains j allowed_top_keys ≡ false =
        ap (λ s. contains s allowed_top_keys) same ∙ unlisted in
      rw unlisted_j refl
  | inr e ↦ elim (Bool-cases (contains j allowed_top_keys)) [
    | inl f ↦ rw f (unlisted-kept payload k unlisted (ground (arith, e, here)))
    | inr f ↦ rw f refl
  ]
]

module _ (search search_any_case : String → String → Bool) (loads : String → Outcome Json)
    (dumps : Json → String) (list_text : List String → String) where
  -- An answer that is read as an object with a key that the rules for answers do not list, such as
  -- `source_jira_key` or `test_types_covered`, does not pass them.
  pub check_output-unlisted :
      (raw_text : String) (fields : Json.Fields) (k : String)
      → loads raw_text ≡ ok (Json.obj fields)
      → contains k allowed_top_keys ≡ false
      → Dict.has (entries fields) k ≡ true
      → (r : GuardrailResult) × (check_output search search_any_case loads dumps list_text raw_text
          ≡ ok r)
        × (r.passed ≡ false)
  unfolding check_output check_data unknown_keys
  check_output-unlisted raw_text fields k read unlisted here =
      let kept = unlisted-kept (entries fields) k unlisted here in
      (
        check_data search search_any_case loads dumps list_text (Json.obj fields),
        rw (read, check_output) refl,
        rw kept refl,
      )
