-- ===== src/Base/Dict.antt =====
-- Python dictionaries, as association lists in insertion order: a write to a key that is there
-- keeps its place, a new key goes to the end.
use Prim.Native.Nat.{ℕ, suc, ◌+◌, ◌≤◌}
use mathlib.Core.Path.{◌≡◌, refl}
use mathlib.Core.Logic.{◌≢◌, ite}
use mathlib.Core.List.{List, [], ◌∷◌, map}
use mathlib.Core.Option.{Option, none, some}
use native.Mathlib.Omega.{arith}
use mathlib.Core.Logic.{inl, inr}
use retiboard.Base.Tests.{Option-cases}
use retiboard.Base.Keys.{Key}
use retiboard.Base.Lists.{sum_by, length}

abbrev pub Dict {ℓ} : Type ℓ → Type ℓ → Type ℓ
Dict K V = List (K × V)

-- The number of a value that may be missing.
abbrev pub at_option {ℓ} : {V : Type ℓ} → (V → ℕ) → Option V → ℕ
at_option f none = 0
at_option f (some v) = f v

abbrev pub map_option {ℓ} : {V : Type ℓ} → (V → V) → Option V → Option V
map_option f none = none
map_option f (some v) = some (f v)

module _ {ℓ} {K V : Type ℓ} where
  abbrev pub keys : Dict K V → List K
  keys = map (λ e. e.0)

  abbrev pub values : Dict K V → List V
  values = map (λ e. e.1)

  -- A number summed over the values.
  unfoldable pub total : (V → ℕ) → Dict K V → ℕ
  total f [] = 0
  total f ((k, v) ∷ d) = f v + total f d

  pub total-values : (f : V → ℕ) (d : Dict K V) → sum_by f (values d) ≡ total f d
  unfolding total sum_by
  total-values f [] = refl
  total-values f ((k, v) ∷ d) = omega (arith, total-values f d)

module _ {ℓ} {K V : Type ℓ} ⦃e : Key K⦄ where
  unfoldable pub lookup : K → Dict K V → Option V
  lookup k [] = none
  lookup k ((j, v) ∷ d) = ite (e.eq_dec j k) (some v) (lookup k d)

  unfoldable pub insert : K → V → Dict K V → Dict K V
  insert k v [] = (k, v) ∷ []
  insert k v ((j, w) ∷ d) = ite (e.eq_dec j k) ((j, v) ∷ d) ((j, w) ∷ insert k v d)

  unfoldable pub erase : K → Dict K V → Dict K V
  erase k [] = []
  erase k ((j, v) ∷ d) = ite (e.eq_dec j k) (erase k d) ((j, v) ∷ erase k d)

  -- A change of one value, if it is there.
  unfoldable pub change : (V → V) → K → Dict K V → Dict K V
  change f k d = elim (lookup k d) [ none ↦ d | some v ↦ insert k (f v) d ]

  -- No key stands twice.
  abbrev pub IsDict : Dict K V → Type ℓ
  IsDict [] = Unit
  IsDict ((k, v) ∷ d) = (lookup k d ≡ none) × IsDict d

  pub lookup-insert :
      (k j : K) (v : V) (d : Dict K V)
      → lookup j (insert k v d) ≡ ite (e.eq_dec k j) (some v) (lookup j d)
  unfolding lookup insert
  lookup-insert k j v [] = refl
  lookup-insert k j v ((i, w) ∷ d) = ground (arith, lookup-insert k j v d)

  pub lookup-erase :
      (k j : K) (d : Dict K V) → lookup j (erase k d) ≡ ite (e.eq_dec k j) none (lookup j d)
  unfolding lookup erase
  lookup-erase k j [] = ground arith
  lookup-erase k j ((i, w) ∷ d) = ground (arith, lookup-erase k j d)

  pub insert-IsDict : (k : K) (v : V) (d : Dict K V) → IsDict d → IsDict (insert k v d)
  unfolding insert lookup
  insert-IsDict k v [] h = (refl, tt)
  insert-IsDict k v ((i, w) ∷ d) h = ground (arith, insert-IsDict k v d h.1, lookup-insert k i v d)

  pub erase-IsDict : (k : K) (d : Dict K V) → IsDict d → IsDict (erase k d)
  unfolding erase
  erase-IsDict k [] h = tt
  erase-IsDict k ((i, w) ∷ d) h = ground (arith, erase-IsDict k d h.1, lookup-erase k i d)

  pub total-insert :
      (f : V → ℕ) (k : K) (v : V) (d : Dict K V)
      → total f (insert k v d) + at_option f (lookup k d) ≡ total f d + f v
  unfolding total insert lookup
  total-insert f k v [] = omega arith
  total-insert f k v ((i, w) ∷ d) = ground (arith, total-insert f k v d)

  erase_missing : (k : K) (d : Dict K V) → lookup k d ≡ none → erase k d ≡ d
  unfolding erase lookup
  erase_missing k [] h = refl
  erase_missing k ((i, w) ∷ d) h = ground (arith, erase_missing k d)

  pub total-erase :
      (f : V → ℕ) (k : K) (d : Dict K V)
      → IsDict d
      → total f (erase k d) + at_option f (lookup k d) ≡ total f d
  unfolding total erase lookup
  total-erase f k [] h = omega arith
  total-erase f k ((i, w) ∷ d) h = ground (arith, total-erase f k d h.1, erase_missing k d)

  -- Every entry of the key goes, so that at least the one that is found does.
  pub total-erase-le :
      (f : V → ℕ) (k : K) (d : Dict K V)
      → total f (erase k d) + at_option f (lookup k d) ≤ total f d
  unfolding total erase lookup
  total-erase-le f k [] = omega arith
  total-erase-le f k ((i, w) ∷ d) = ground (arith, total-erase-le f k d)

  pub total-lookup-le : (f : V → ℕ) (k : K) (d : Dict K V) → at_option f (lookup k d) ≤ total f d
  unfolding total lookup
  total-lookup-le f k [] = omega arith
  total-lookup-le f k ((i, w) ∷ d) = ground (arith, total-lookup-le f k d)

  pub lookup-insert_self : (k : K) (v : V) (d : Dict K V) → lookup k (insert k v d) ≡ some v
  lookup-insert_self k v d = ground (arith, lookup-insert k k v d)

  pub lookup-insert_ne :
      (k j : K) (v : V) (d : Dict K V) → k ≢ j → lookup j (insert k v d) ≡ lookup j d
  lookup-insert_ne k j v d h = ground (arith, lookup-insert k j v d)

  pub lookup-erase_self : (k : K) (d : Dict K V) → lookup k (erase k d) ≡ none
  lookup-erase_self k d = ground (arith, lookup-erase k k d)

  pub lookup-erase_ne : (k j : K) (d : Dict K V) → k ≢ j → lookup j (erase k d) ≡ lookup j d
  lookup-erase_ne k j d h = ground (arith, lookup-erase k j d)

  length-total : (d : Dict K V) → length d ≡ total (λ v. 1) d
  unfolding total
  length-total [] = refl
  length-total (x ∷ d) = omega (arith, length-total d)

  pub length-insert :
      (k : K) (v : V) (d : Dict K V)
      → length (insert k v d) + at_option (λ w. 1) (lookup k d) ≡ suc (length d)
  length-insert k v d =
      omega (arith, total-insert (λ w. 1) k v d, length-total d, length-total (insert k v d))

  pub length-erase :
      (k : K) (d : Dict K V)
      → IsDict d
      → length (erase k d) + at_option (λ w. 1) (lookup k d) ≡ length d
  length-erase k d h =
      omega (arith, total-erase (λ w. 1) k d h, length-total d, length-total (erase k d))

  pub lookup-change :
      (f : V → V) (k j : K) (d : Dict K V)
      → lookup j (change f k d) ≡ ite (e.eq_dec k j) (map_option f (lookup k d)) (lookup j d)
  unfolding change
  lookup-change f k j d = elim (Option-cases (lookup k d)) [
    | inl none_there ↦ ground arith
    | inr (v, there) ↦ ground (arith, lookup-insert k j (f v) d)
  ]

  pub length-erase-le : (k : K) (d : Dict K V) → length (erase k d) ≤ length d
  unfolding erase
  length-erase-le k [] = omega arith
  length-erase-le k ((i, w) ∷ d) = ground (arith, length-erase-le k d)

  pub length-insert-le : (k : K) (v : V) (d : Dict K V) → length (insert k v d) ≤ suc (length d)
  length-insert-le k v d = omega (arith, length-insert k v d)
