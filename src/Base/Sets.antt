-- ===== src/Base/Sets.antt =====
-- Python sets, as lists with no element twice.
pub mod Parts
use Prim.Native.Nat.{suc}
use mathlib.Core.Path.{◌≡◌, refl}
use mathlib.Core.Bool.{Bool, false, ◌||◌}
use mathlib.Core.List.{List, [], ◌∷◌}
use native.Mathlib.Omega.{arith}
use retiboard.Base.Tests.{if◌then◌else◌}
use retiboard.Base.Keys.{Key, equal}
use retiboard.Base.Lists.{length}

module _ {ℓ} {A : Type ℓ} ⦃e : Key A⦄ where
  unfoldable pub contains : A → List A → Bool
  contains a [] = false
  contains a (x ∷ s) = equal x a || contains a s

  -- `s.add(a)`
  unfoldable pub add : A → List A → List A
  add a s = if contains a s then s else a ∷ s

  -- `s.discard(a)`
  unfoldable pub discard : A → List A → List A
  discard a [] = []
  discard a (x ∷ s) = if equal x a then discard a s else x ∷ discard a s

  abbrev pub IsSetOf : List A → Type ℓ
  IsSetOf [] = Unit
  IsSetOf (x ∷ s) = (contains x s ≡ false) × IsSetOf s

  pub contains-add : (a b : A) (s : List A) → contains b (add a s) ≡ (equal a b || contains b s)
  unfolding contains add
  contains-add a b s = ground arith

  pub contains-discard :
      (a b : A) (s : List A)
      → contains b (discard a s) ≡ (if equal a b then false else contains b s)
  unfolding contains discard
  contains-discard a b [] = ground arith
  contains-discard a b (x ∷ s) = ground (arith, contains-discard a b s)

  pub add-IsSetOf : (a : A) (s : List A) → IsSetOf s → IsSetOf (add a s)
  unfolding add
  add-IsSetOf a s h = ground arith

  pub discard-IsSetOf : (a : A) (s : List A) → IsSetOf s → IsSetOf (discard a s)
  unfolding discard
  discard-IsSetOf a [] h = tt
  discard-IsSetOf a (x ∷ s) h = ground (arith, discard-IsSetOf a s h.1, contains-discard a x s)

  discard_missing : (a : A) (s : List A) → contains a s ≡ false → discard a s ≡ s
  unfolding contains discard
  discard_missing a [] h = refl
  discard_missing a (x ∷ s) h = ground (arith, discard_missing a s)

  pub length-add :
      (a : A) (s : List A) → length (add a s) ≡ (if contains a s then length s else suc (length s))
  unfolding add
  length-add a s = ground arith

  pub length-discard :
      (a : A) (s : List A)
      → IsSetOf s
      → length s ≡ (if contains a s then suc (length (discard a s)) else length (discard a s))
  unfolding contains discard
  length-discard a [] h = refl
  length-discard a (x ∷ s) h = ground (arith, length-discard a s h.1, discard_missing a s)
