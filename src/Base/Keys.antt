-- ===== src/Base/Keys.antt =====
-- What a dictionary's keys and a set's elements need: a decision of equality.
use Prim.Native.Nat.{ℕ}
use Prim.Native.String.{String}
use mathlib.Core.Bool.{Bool, true, false}
use native.Mathlib.Decide.{ℕ_discrete}
use retiboard.Base.Text.{text_discrete}

pub record Key {ℓ} (A : Type ℓ) : Type ℓ where
  pub eq_dec : Discrete A

instance abbrev pub nat_key : Key ℕ
nat_key = record { eq_dec = ℕ_discrete }

instance abbrev pub text_key : Key String
text_key = record { eq_dec = text_discrete }

-- `a == b` on keys.
abbrev pub equal {ℓ} : {A : Type ℓ} ⦃e : Key A⦄ → A → A → Bool
equal ⦃e⦄ a b = elim (e.eq_dec a b) [ yes _ ↦ true | no _ ↦ false ]
