-- ===== src/Validation/Passed.antt =====
-- totalrecall/validation/coordinator.py: what a passed validation vouches for.
use totalrecall.Common.{
  Bool, true, false, Option, none, some, List, [], ◌∷◌, ◌++◌, map, filter, any, is_empty, All, ◌≡◌,
  refl, sym, ◌∙◌, ap, arith, Bool-cases, inl, inr, any-append_false, if◌then◌else◌,
}
use totalrecall.Common.Text.{String}
use totalrecall.Common.Outcome.{Outcome, ok, Outcome-cases, ok-injective}
use totalrecall.Generation.Models.{
  Language, ArtifactType, ValidationStatus, GeneratedArtifact, ValidationDiagnostic,
  ValidationSummary,
}
use totalrecall.Skills.{SkillDefinition}
use totalrecall.Validation.{
  PlaywrightValidationWorker, SyntaxFailure, failing, warned, overall, java_warning, in_language,
  check_java_syntax, check_python_syntax, check_structure, check_playwright_worker, validate,
  parse_each, is_structure, missing_types, missing_type, check_validators,
}

overall-passed :
    (ds : List ValidationDiagnostic)
    → overall ds ≡ ValidationStatus.passed
    → (any failing ds ≡ false) × (any warned ds ≡ false)
unfolding overall
overall-passed ds h = ground (arith, h)

java-passed :
    (artifacts : List GeneratedArtifact)
    → any warned (check_java_syntax artifacts) ≡ false
    → in_language Language.java artifacts ≡ []
unfolding check_java_syntax
java-passed artifacts h = none_warned (in_language Language.java artifacts) h
  where
    none_warned : (xs : List GeneratedArtifact) → any warned (map java_warning xs) ≡ false → xs ≡ []
    none_warned [] h = refl
    none_warned (x ∷ xs) h = ground (arith, h)

module _ (set_order : List ArtifactType → List ArtifactType) (has_class : String → Bool)
    (parse_python : String → Outcome (Option SyntaxFailure)) where
  -- The parser accepts the artifact.
  abbrev pub Parses : GeneratedArtifact → Type 0
  Parses a = parse_python a.content ≡ ok none

  parse_each-passed :
      (artifacts : List GeneratedArtifact) (ds : List ValidationDiagnostic)
      → parse_each set_order has_class parse_python artifacts ≡ ok ds
      → any failing ds ≡ false
      → All Parses artifacts
  unfolding parse_each
  parse_each-passed [] ds h clean = tt
  parse_each-passed (a ∷ artifacts) ds h clean = elim (Outcome-cases (parse_python a.content)) [
    | inr (x, e) ↦ ground (arith, e, h)
    | inl (none, e) ↦ (e, parse_each-passed artifacts ds (ground (arith, e, h)) clean)
    | inl (some x, e) ↦
        elim (Outcome-cases (parse_each set_order has_class parse_python artifacts)) [
          | inr (y, f) ↦ ground (arith, e, f, h)
          | inl (rest, f) ↦ ground (arith, e, f, h, clean)
        ]
  ]

  module _ {W : Type 0} (worker : Option (PlaywrightValidationWorker W)) where
    -- What a computed summary consists of.
    -- The diagnostics in the order of the checks.
    abbrev found :
        List GeneratedArtifact
        → Option SkillDefinition
        → W
        → List ValidationDiagnostic
        → List ValidationDiagnostic
    found artifacts skill w python =
        check_structure set_order has_class parse_python artifacts skill
        ++ (python
            ++ (check_java_syntax artifacts
                ++ (check_playwright_worker set_order has_class parse_python worker artifacts skill
                    w).0))

    abbrev computed : List ValidationDiagnostic → ValidationSummary
    computed ds = record { status = overall ds; diagnostics = ds }

    validate-parts :
        (a : GeneratedArtifact) (rest : List GeneratedArtifact) (skill : Option SkillDefinition)
        (w : W) (s : ValidationSummary)
        → (validate set_order has_class parse_python worker (a ∷ rest) skill w).0 ≡ ok s
        → (python : List ValidationDiagnostic) × (check_python_syntax set_order has_class
              parse_python
              (a ∷ rest)
            ≡ ok python)
          × (s ≡ computed (found (a ∷ rest) skill w python))
    unfolding validate
    validate-parts a rest skill w s h =
        elim (Outcome-cases (check_python_syntax set_order has_class parse_python (a ∷ rest))) [
          | inr (x, e) ↦ ground (arith, e, h)
          | inl (python, e) ↦ (python, e, ok-injective (ground (arith, e, h)))
        ]

    -- The parts of a passed summary have no failing diagnostic and no warning.
    validate-passed :
        (artifacts : List GeneratedArtifact) (skill : Option SkillDefinition) (w : W)
        (s : ValidationSummary)
        → (validate set_order has_class parse_python worker artifacts skill w).0 ≡ ok s
        → s.status ≡ ValidationStatus.passed
        → (is_empty artifacts ≡ false)
          × All Parses (in_language Language.python artifacts)
          × (in_language Language.java artifacts ≡ [])
          × (any warned (check_structure set_order has_class parse_python artifacts skill) ≡ false)
          × (any failing (check_structure set_order has_class parse_python artifacts skill) ≡ false)
          × (any failing
                (check_playwright_worker set_order has_class parse_python worker artifacts skill
                  w).0
              ≡ false)
    unfolding validate check_python_syntax
    validate-passed [] skill w s h passed = ground (arith, h, passed)
    validate-passed (a ∷ rest) skill w s h passed =
        let artifacts = a ∷ rest in
        let (python, parsed, same) = validate-parts a rest skill w s h in
        let structure = check_structure set_order has_class parse_python artifacts skill in
        let workers =
          (check_playwright_worker set_order has_class parse_python worker artifacts skill w).0 in
        let java = check_java_syntax artifacts in
        let (unfailed, unwarned) =
          overall-passed (found artifacts skill w python)
            (sym (ap (λ t. t.status) same) ∙ passed) in
        let f1 = any-append_false failing structure (python ++ (java ++ workers)) unfailed in
        let f2 = any-append_false failing python (java ++ workers) f1.1 in
        let f3 = any-append_false failing java workers f2.1 in
        let w1 = any-append_false warned structure (python ++ (java ++ workers)) unwarned in
        let w2 = any-append_false warned python (java ++ workers) w1.1 in
        let w3 = any-append_false warned java workers w2.1 in
        (
          refl,
          parse_each-passed (in_language Language.python artifacts) python parsed f2.0,
          java-passed artifacts w3.0,
          w1.0,
          f1.0,
          f3.1,
        )

  -- The types that the skill asks for, if it has a structure check, and that no artifact has.
  abbrev pub demanded_missing : List GeneratedArtifact → Option SkillDefinition → List ArtifactType
  demanded_missing artifacts none = []
  demanded_missing artifacts (some skill) =
      if is_empty (filter is_structure skill.validators)
      then []
      else missing_types set_order has_class parse_python skill artifacts

  -- Running through a set that has an element gives an element.
  abbrev pub IsRunThrough : Type 0
  IsRunThrough = (types : List ArtifactType) → is_empty (set_order types) ≡ is_empty types

  missing_warned :
      (artifacts : List GeneratedArtifact) (types : List ArtifactType)
      → any warned (map (missing_type artifacts) types) ≡ false
      → is_empty types ≡ true
  missing_warned artifacts [] h = refl
  missing_warned artifacts (t ∷ types) h = ground (arith, h)

  is_empty-nil : (types : List ArtifactType) → is_empty types ≡ true → types ≡ []
  is_empty-nil [] h = refl
  is_empty-nil (t ∷ types) h = ground (arith, h)

  structure-passed :
      (artifacts : List GeneratedArtifact) (skill : Option SkillDefinition)
      → IsRunThrough
      → any warned (check_structure set_order has_class parse_python artifacts skill) ≡ false
      → demanded_missing artifacts skill ≡ []
  unfolding check_structure
  structure-passed artifacts none through h = refl
  structure-passed artifacts (some skill) through h =
      elim (Bool-cases (is_empty (filter is_structure skill.validators))) [
        | inl e ↦ rw e refl
        | inr e ↦
            let types = missing_types set_order has_class parse_python skill artifacts in
            let validators = filter is_structure skill.validators in
            let clean =
              any-append_false warned (map (missing_type artifacts) (set_order types))
                (check_validators set_order has_class parse_python validators artifacts)
                (ground (arith, e, h)) in
            rw e (
              is_empty-nil types
                (sym (through types) ∙ missing_warned artifacts (set_order types) clean.0))
      ]

  module _ {W : Type 0} (worker : Option (PlaywrightValidationWorker W)) where
    -- If running through a set that has an element gives an element, and a validation computes a
    -- summary with the status PASSED, then there are artifacts, the parser accepts every Python
    -- artifact, no artifact is in Java, and no type is missing of those that a skill with a structure
    -- check asks for.
    pub validate-vouches :
        (artifacts : List GeneratedArtifact) (skill : Option SkillDefinition) (w : W)
        (s : ValidationSummary)
        → IsRunThrough
        → (validate set_order has_class parse_python worker artifacts skill w).0 ≡ ok s
        → s.status ≡ ValidationStatus.passed
        → (is_empty artifacts ≡ false)
          × All Parses (in_language Language.python artifacts)
          × (in_language Language.java artifacts ≡ [])
          × (demanded_missing artifacts skill ≡ [])
    validate-vouches artifacts skill w s through h passed =
        let (some_artifact, parses, java, unwarned, unfailed, workers) =
          validate-passed worker artifacts skill w s h passed in
        (some_artifact, parses, java, structure-passed artifacts skill through unwarned)
