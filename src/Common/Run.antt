-- ===== src/Common/Run.antt =====
-- A call over a state that returns or raises: the state it leaves stands beside the outcome.
use totalrecall.Common.Outcome.{Outcome, ok, raise}

abbrev pub Run {ℓ κ} : Type ℓ → Type κ → Type (ℓ ⊔ κ)
Run W A = W → Outcome A × W

abbrev pub pure {ℓ κ} : {W : Type ℓ} {A : Type κ} → A → Run W A
pure a w = (ok a, w)

abbrev pub lift {ℓ κ} : {W : Type ℓ} {A : Type κ} → Outcome A → Run W A
lift o w = (o, w)

-- What follows a call, and nothing after one that raises.
abbrev pub follow {ℓ κ} :
    {W : Type ℓ} {A B : Type κ} → (A → Run W B) → Outcome A × W → Outcome B × W
follow f (ok a, w) = f a w
follow f (raise e, w) = (raise e, w)

infixl 5 ◌>>=◌
abbrev pub ◌>>=◌ {ℓ κ} : {W : Type ℓ} {A B : Type κ} → Run W A → (A → Run W B) → Run W B
(m >>= f) w = follow f (m w)
