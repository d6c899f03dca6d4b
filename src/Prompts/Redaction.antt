-- ===== src/Prompts/Redaction.antt =====
-- totalrecall/prompts/redactor.py: the messages of the user are redacted before they leave.
use totalrecall.Common.{
  Bool, true, false, List, [], ◌∷◌, ◌⊕◌, map, All, ◌≡◌, refl, ◌∙◌, ap, arith, Bool-cases, inl, inr,
  if◌then◌else◌,
}
use totalrecall.Common.Text.{String}
use totalrecall.Learning.Redactor.{Pattern, redact, IsClear, patterns, redact-IsClear}
use totalrecall.Providers.Models.{ProviderRole, ProviderMessage}
use totalrecall.Prompts.{new_message}

abbrev pub is_user : ProviderMessage → Bool
is_user m = elim m.role [ ProviderRole.user ↦ true | _ ↦ false ]

module _ (compile : String → Pattern) where
  unfoldable pub redact_messages : List ProviderMessage → List ProviderMessage × List String
  redact_messages [] = ([], [])
  redact_messages (msg ∷ messages) =
      let (redacted, all_warnings) = redact_messages messages in
      if is_user msg
      then (let (clean_content, warnings) = redact compile msg.content in
          (new_message msg.role clean_content ∷ redacted, warnings ⊕ all_warnings))
      else (msg ∷ redacted, all_warnings)

  -- What one message becomes.
  abbrev pub redacted : ProviderMessage → ProviderMessage
  redacted m = elim m.role [
    | ProviderRole.user ↦ record {
      role = ProviderRole.user;
      content = (redact compile m.content).0;
    }
    | _ ↦ m
  ]

  pub redact_messages-map :
      (messages : List ProviderMessage) → (redact_messages messages).0 ≡ map redacted messages
  unfolding redact_messages
  redact_messages-map [] = refl
  redact_messages-map (m ∷ messages) = ground (arith, redact_messages-map messages)

  -- No pattern finds anything in a message of the user.
  abbrev pub IsSafe : ProviderMessage → Type 0
  IsSafe m = if is_user m then IsClear (patterns compile) m.content else Unit

  append-nil : (xs ys : List String) → xs ⊕ ys ≡ [] → (xs ≡ []) × (ys ≡ [])
  append-nil [] ys h = (refl, h)
  append-nil (x ∷ xs) ys h = ground (arith, h)

  redact_message-silent :
      (m : ProviderMessage)
      → is_user m ≡ true
      → (redact compile m.content).1 ≡ []
      → IsSafe m × (new_message m.role (redact compile m.content).0 ≡ m)
  redact_message-silent m user silent =
      let (clear, same) = redact-IsClear compile m.content silent in
      (rw user clear, ap (λ c. new_message m.role c) same)

  -- If the redaction of messages gives no warning, then no pattern finds anything in a message of the
  -- user, and every message is as it was.
  pub redact_messages-silent :
      (messages : List ProviderMessage)
      → (redact_messages messages).1 ≡ []
      → All IsSafe messages × ((redact_messages messages).0 ≡ messages)
  unfolding redact_messages
  redact_messages-silent [] h = (tt, refl)
  redact_messages-silent (m ∷ messages) h = elim (Bool-cases (is_user m)) [
    | inl e ↦
        let (silent, rest) =
          append-nil (redact compile m.content).1 (redact_messages messages).1
            (ground (arith, e, h)) in
        let (safe, same) = redact_message-silent m e silent in
        let (safe_rest, same_rest) = redact_messages-silent messages rest in
        (
          (safe, safe_rest),
          rw e (ap (λ x. x ∷ (redact_messages messages).0) same ∙ ap (λ ms. m ∷ ms) same_rest),
        )
    | inr e ↦
        let (safe_rest, same_rest) = redact_messages-silent messages (ground (arith, e, h)) in
        ((rw e tt, safe_rest), rw e (ap (λ ms. m ∷ ms) same_rest))
  ]
