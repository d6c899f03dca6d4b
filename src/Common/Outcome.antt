-- ===== src/Common/Outcome.antt =====
-- A call that returns or raises. The exceptions are those that the program's handlers tell apart;
-- `other` is any other one, with its class's name and its text.
use totalrecall.Common.Text.{String}
use Prim.Native.Nat.{ℕ}
use mathlib.Core.Path.{◌≡◌, refl}
use mathlib.Core.Logic.{◌⊎◌, inl, inr}

pub data Exception : Type 0 where
  provider_not_found : String → Exception
  credential_not_found : String → Exception
  skill_not_found : String → Exception
  auth_error : String → Exception
  key_error : String → Exception
  value_error : String → Exception
  index_error : Exception
  http : ℕ → String → Exception
  other : String → String → Exception

pub data Outcome {ℓ} (A : Type ℓ) : Type ℓ where
  ok : A → Outcome A
  raise : Exception → Outcome A

infixl 5 ◌>>=◌
abbrev pub ◌>>=◌ {ℓ κ} : {A : Type ℓ} {B : Type κ} → Outcome A → (A → Outcome B) → Outcome B
ok a >>= f = f a
raise e >>= f = raise e

-- `str(exc)`
unfoldable pub exception_text : Exception → String
exception_text (provider_not_found s) = s
exception_text (credential_not_found s) = s
exception_text (skill_not_found s) = s
exception_text (auth_error s) = s
exception_text (key_error s) = s
exception_text (value_error s) = s
exception_text index_error = "deque index out of range"
exception_text (http status detail) = detail
exception_text (other name s) = s

-- `type(exc).__name__`
unfoldable pub exception_name : Exception → String
exception_name (provider_not_found s) = "ProviderNotFoundError"
exception_name (credential_not_found s) = "CredentialNotFoundError"
exception_name (skill_not_found s) = "SkillNotFoundError"
exception_name (auth_error s) = "AuthError"
exception_name (key_error s) = "KeyError"
exception_name (value_error s) = "ValueError"
exception_name index_error = "IndexError"
exception_name (http status detail) = "HTTPException"
exception_name (other name s) = name

pub Outcome-cases {ℓ} :
    {A : Type ℓ} (o : Outcome A) → ((a : A) × (o ≡ ok a)) ⊎ ((e : Exception) × (o ≡ raise e))
Outcome-cases (ok a) = inl (a, refl)
Outcome-cases (raise e) = inr (e, refl)

pub ok-injective {ℓ} : {A : Type ℓ} {a b : A} → ok a ≡ ok b → a ≡ b
ok-injective h = cc
