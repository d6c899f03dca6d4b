-- ===== src/Learning/Redactor.antt =====
-- totalrecall/learning/redactor.py: secrets in a text are replaced, pattern after pattern. `compile`
-- makes a pattern of a regular expression, as the library `re` does.
use totalrecall.Common.{
  Bool, false, List, [], ◌∷◌, All, ◌≡◌, refl, arith, Bool-cases, inl, inr, if◌then◌else◌, map,
}
use totalrecall.Common.Text.{String, ◌++◌, take_chars}

-- A compiled pattern: its text, the search and the substitution of its matches.
pub record Pattern : Type 0 where
  pub pattern : String
  pub search : String → Bool
  pub sub : String → String → String

abbrev pub replacement : String
replacement = "[REDACTED]"

abbrev pub pattern_texts : List String
pattern_texts =
    "(?i)(?:api[_-]?key|secret|password|token|credential|auth)\\s*[=:]\\s*[\"\\']([^\"\\']{8,})[\"\\']"
    ∷ "\\bsk-[A-Za-z0-9]{20,}" ∷ "\\bghp_[A-Za-z0-9]{36}\\b"
    ∷ "(?<![A-Za-z0-9+/])[A-Za-z0-9+/]{60,}={0,2}(?![A-Za-z0-9+/=])" ∷ []

-- The loop over the patterns.
unfoldable pub redact_with : List Pattern → String → String × List String
redact_with [] text = (text, [])
redact_with (p ∷ patterns) text =
    let found = p.search text in
    let (redacted, warnings) =
      redact_with patterns (if found then p.sub replacement text else text) in
    (
      redacted,
      if found
          then ("Redacted content matching: " ++ take_chars 60 p.pattern) ∷ warnings
          else warnings,
    )

abbrev pub patterns : (String → Pattern) → List Pattern
patterns compile = map compile pattern_texts

unfoldable pub redact : (String → Pattern) → String → String × List String
unfolding redact_with
redact compile text = redact_with (patterns compile) text

-- No pattern finds anything.
abbrev pub IsClear : List Pattern → String → Type 0
IsClear ps text = All (λ p. p.search text ≡ false) ps

redact_with-IsClear :
    (ps : List Pattern) (text : String)
    → (redact_with ps text).1 ≡ []
    → IsClear ps text × ((redact_with ps text).0 ≡ text)
unfolding redact_with
redact_with-IsClear [] text h = (tt, refl)
redact_with-IsClear (p ∷ ps) text h = elim (Bool-cases (p.search text)) [
  | inl e ↦ ground (arith, e, h)
  | inr e ↦
      let (clear, same) = redact_with-IsClear ps text (ground (arith, e, h)) in
      ((e, clear), ground (arith, e, same))
]

-- A redaction without warnings found nothing and leaves the text as it is.
pub redact-IsClear :
    (compile : String → Pattern) (text : String)
    → (redact compile text).1 ≡ []
    → IsClear (patterns compile) text × ((redact compile text).0 ≡ text)
unfolding redact
redact-IsClear compile text h = redact_with-IsClear (patterns compile) text h
