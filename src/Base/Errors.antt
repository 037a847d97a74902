-- ===== src/Base/Errors.antt =====
-- loraham_kiss_tnc.h: the error codes LHKT_ERR_*, and a call's result: a value for LHKT_OK, or
-- one of the codes.
use mathlib.Core.Path.{◌≡◌, refl, subst}
use mathlib.Core.Logic.{◌⊎◌, inl, inr}
use mathlib.Core.Bool.{Bool, true, false}
use loraham_kiss_tnc.Base.Tests.{if◌then◌else◌}

pub data Code : Type 0 where
  err err_short err_long err_format err_unsupported err_nospace : Code
  err_tx_socket err_client_socket err_conf_socket err_tx_result err_again : Code

pub data Result {ℓ} (A : Type ℓ) : Type ℓ where
  ok : A → Result A
  fail : Code → Result A

infixl 5 ◌>>=◌
abbrev pub ◌>>=◌ {ℓ κ} : {A : Type ℓ} {B : Type κ} → Result A → (A → Result B) → Result B
ok a >>= f = f a
fail e >>= f = fail e

module _ {ℓ} {A : Type ℓ} where
  pub Result-cases : (r : Result A) → ((a : A) × (r ≡ ok a)) ⊎ ((e : Code) × (r ≡ fail e))
  Result-cases (ok a) = inl (a, refl)
  Result-cases (fail e) = inr (e, refl)

  ok-injective : {a b : A} → ok a ≡ ok b → a ≡ b
  ok-injective h = cc

-- A property of the value, where the call succeeds.
abbrev pub OnOk {ℓ κ} : {A : Type ℓ} → (A → Type κ) → Result A → Type κ
OnOk P (ok a) = P a
OnOk P (fail e) = Unit

module _ {ℓ κ} {A : Type ℓ} (P : A → Type κ) where
  pub OnOk-ok : (r : Result A) {a : A} → OnOk P r → r ≡ ok a → P a
  OnOk-ok (ok b) h e = subst P (ok-injective e) h
  OnOk-ok (fail c) h e = absurd cc

  pub OnOk-intro : (r : Result A) → ((a : A) → r ≡ ok a → P a) → OnOk P r
  OnOk-intro (ok a) h = h a refl
  OnOk-intro (fail c) h = tt

module _ {ℓ κ μ} {A B : Type ℓ} (Q : A → Type κ) (P : B → Type μ) where
  pub bind-OnOk :
      (m : Result A) (f : A → Result B)
      → OnOk Q m
      → ((a : A) → Q a → OnOk P (f a))
      → OnOk P (m >>= f)
  bind-OnOk (ok a) f h k = k a h
  bind-OnOk (fail e) f h k = tt

module _ {ℓ κ} {A : Type ℓ} (P : A → Type κ) where
  pub guard-OnOk :
      (b : Bool) (e : Code) (r : Result A)
      → (b ≡ false → OnOk P r)
      → OnOk P (if b then fail e else r)
  guard-OnOk true e r h = tt
  guard-OnOk false e r h = h refl
