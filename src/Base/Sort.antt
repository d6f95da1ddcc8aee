-- ===== src/Base/Sort.antt =====
-- Python's `sorted`, by its documented contract: a stable sort by a comparison.
pub mod Perm
pub mod Filtered
use Prim.Native.Nat.{ℕ, zero, suc}
use mathlib.Core.Path.{◌≡◌, refl}
use mathlib.Core.Logic.{inl, inr}
use mathlib.Core.Bool.{Bool, true, false}
use mathlib.Core.List.{List, [], ◌∷◌}
use native.Mathlib.Omega.{arith}
use retiboard.Base.Tests.{if◌then◌else◌, Bool-cases}
use retiboard.Base.Lists.{All, length, take}

module _ {ℓ} {A : Type ℓ} (before : A → A → Bool) where
  -- `x` goes in front of the first element that is not before it, so that equals keep their order.
  unfoldable pub insert_sorted : A → List A → List A
  insert_sorted x [] = x ∷ []
  insert_sorted x (y ∷ ys) = if before y x then y ∷ insert_sorted x ys else x ∷ y ∷ ys

  unfoldable pub sort_by : List A → List A
  unfolding insert_sorted
  sort_by [] = []
  sort_by (x ∷ xs) = insert_sorted x (sort_by xs)

module _ {ℓ} {A : Type ℓ} (before : A → A → Bool) where
  insert_sorted-All {κ} :
      (P : A → Type κ) (x : A) (xs : List A) → P x → All P xs → All P (insert_sorted before x xs)
  unfolding insert_sorted
  insert_sorted-All P x [] h hs = (h, tt)
  insert_sorted-All P x (y ∷ ys) h hs = elim (Bool-cases (before y x)) [
    | inl e ↦ rw e (hs.0, insert_sorted-All P x ys h hs.1)
    | inr e ↦ rw e (h, (hs.0, hs.1))
  ]

  -- What holds of all elements holds of all elements of the sorted list.
  pub sort_by-All {κ} : (P : A → Type κ) (xs : List A) → All P xs → All P (sort_by before xs)
  unfolding sort_by
  sort_by-All P [] h = tt
  sort_by-All P (x ∷ xs) h = insert_sorted-All P x (sort_by before xs) h.0 (sort_by-All P xs h.1)

  length-insert_sorted :
      (x : A) (xs : List A) → length (insert_sorted before x xs) ≡ suc (length xs)
  unfolding insert_sorted
  length-insert_sorted x [] = refl
  length-insert_sorted x (y ∷ ys) = ground (arith, length-insert_sorted x ys)

  pub length-sort_by : (xs : List A) → length (sort_by before xs) ≡ length xs
  unfolding sort_by
  length-sort_by [] = refl
  length-sort_by (x ∷ xs) =
      ground (arith, length-sort_by xs, length-insert_sorted x (sort_by before xs))

module _ {ℓ} {A : Type ℓ} (before : A → A → Bool) where
  -- No element is before the one in front of it.
  abbrev pub IsSorted : List A → Type 0
  IsSorted [] = Unit
  IsSorted (x ∷ []) = Unit
  IsSorted (x ∷ y ∷ xs) = (before y x ≡ false) × IsSorted (y ∷ xs)

  module _ (asymmetric : (x y : A) → before x y ≡ true → before y x ≡ false) where
    insert_sorted-IsSorted :
        (x : A) (ys : List A) → IsSorted ys → IsSorted (insert_sorted before x ys)
    unfolding insert_sorted
    insert_sorted-IsSorted x [] h = tt
    insert_sorted-IsSorted x (y ∷ []) h = elim (Bool-cases (before y x)) [
      | inl e ↦ rw (e, insert_sorted) (asymmetric y x e, tt)
      | inr e ↦ rw (e, insert_sorted) (e, tt)
    ]
    insert_sorted-IsSorted x (y ∷ z ∷ ys) h = elim (Bool-cases (before y x)) [
      | inr e ↦ rw (e, insert_sorted) (e, h)
      | inl e ↦
          let rest = insert_sorted-IsSorted x (z ∷ ys) h.1 in
          elim (Bool-cases (before z x)) [
            | inl f ↦ rw (e, insert_sorted, f) (h.0, rw (f, insert_sorted) at rest)
            | inr f ↦ rw (e, insert_sorted, f) (asymmetric y x e, rw (f, insert_sorted) at rest)
          ]
    ]

    pub sort_by-IsSorted : (xs : List A) → IsSorted (sort_by before xs)
    unfolding sort_by
    sort_by-IsSorted [] = tt
    sort_by-IsSorted (x ∷ xs) = insert_sorted-IsSorted x (sort_by before xs) (sort_by-IsSorted xs)

  pub take-IsSorted : (n : ℕ) (xs : List A) → IsSorted xs → IsSorted (take n xs)
  take-IsSorted zero xs h = tt
  take-IsSorted (suc n) [] h = tt
  take-IsSorted (suc zero) (x ∷ xs) h = tt
  take-IsSorted (suc (suc n)) (x ∷ []) h = tt
  take-IsSorted (suc (suc n)) (x ∷ y ∷ xs) h = (h.0, take-IsSorted (suc n) (y ∷ xs) h.1)
