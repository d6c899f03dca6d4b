-- ===== src/Prompts/Examples.antt =====
-- totalrecall/prompts: messages without secrets, and two memories that differ for another tenant.
use totalrecall.Common.{ℕ, suc, none, List, [], ◌∷◌, ◌≡◌, refl, if◌then◌else◌}
use totalrecall.Common.Text.{String, ◌==◌, includes}
use totalrecall.Common.Json.{Json}
use totalrecall.Common.Outcome.{ok, raise, other}
use totalrecall.Providers.Models.{ProviderRole, ProviderMessage}
use totalrecall.Generation.Samples.{request, login_plan, skills}
use totalrecall.Learning.Redactor.{Pattern, redact, redact_with}
use totalrecall.Prompts.{new_message}
use totalrecall.Prompts.Redaction.{redact_messages}
use totalrecall.Prompts.Builder.{build}
use totalrecall.Prompts.Isolation.{Reader, build-agree}

-- A pattern that stands for the keys of one vendor, whatever the expression.
abbrev compile : String → Pattern
compile text = record {
  pattern = text;
  search = λ s. includes "sk-" s;
  sub = λ replacement s. replacement;
}

abbrev messages : List ProviderMessage
messages =
    new_message ProviderRole.system "sk-rules" ∷ new_message ProviderRole.user "test the login" ∷ []

silent : (redact_messages compile messages).1 ≡ []
unfolding redact_messages redact redact_with includes
silent = refl

abbrev dumps : Json → String
dumps schema = "{}"

-- A memory that is empty, and one that fails for every tenant but one.
abbrev empty : Reader ℕ
empty r calls = (ok none, suc calls)

abbrev failing : Reader ℕ
failing r calls =
    if r.tenant_id == "acme"
    then (ok none, suc calls)
    else (raise (other "MemoryError" "down"), calls)

build-agree_example :
    build empty dumps skills request login_plan 0 ≡ build failing dumps skills request login_plan 0
build-agree_example =
    build-agree empty failing dumps skills request login_plan 0 (λ entity_id w. refl)
