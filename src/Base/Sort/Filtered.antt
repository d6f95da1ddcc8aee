-- ===== src/Base/Sort/Filtered.antt =====
-- Sorted lists and permutations under a filter and a sum.
use Prim.Native.Nat.{ℕ}
use mathlib.Core.Path.{◌≡◌, refl, subst, ◌∙◌}
use mathlib.Core.Bool.{Bool, false}
use mathlib.Core.Logic.{inl, inr}
use mathlib.Core.List.{List, [], ◌∷◌, Permᴰ}
use mathlib.Core.List.Permᴰ
use native.Mathlib.Omega.{arith}
use retiboard.Base.Tests.{Bool-cases}
use retiboard.Base.Lists.{All, filter_by, sum_by}
use retiboard.Base.Sort.{IsSorted}

module _ {ℓ} {A : Type ℓ} (before : A → A → Bool)
    (trans : (x y z : A) → before y x ≡ false → before z y ≡ false → before z x ≡ false) where
  -- None of the elements is before `x`.
  abbrev NoneBefore : A → List A → Type 0
  NoneBefore x = All (λ y. before y x ≡ false)

  NoneBefore-trans :
      (x y : A) (xs : List A) → before y x ≡ false → NoneBefore y xs → NoneBefore x xs
  NoneBefore-trans x y [] h hs = tt
  NoneBefore-trans x y (z ∷ xs) h hs = (trans x y z h hs.0, NoneBefore-trans x y xs h hs.1)

  IsSorted-tail : (x : A) (xs : List A) → IsSorted before (x ∷ xs) → IsSorted before xs
  IsSorted-tail x [] h = tt
  IsSorted-tail x (y ∷ xs) h = h.1

  IsSorted-head : (x : A) (xs : List A) → IsSorted before (x ∷ xs) → NoneBefore x xs
  IsSorted-head x [] h = tt
  IsSorted-head x (y ∷ xs) h = (h.0, NoneBefore-trans x y xs h.0 (IsSorted-head y xs h.1))

  IsSorted-cons :
      (x : A) (xs : List A) → NoneBefore x xs → IsSorted before xs → IsSorted before (x ∷ xs)
  IsSorted-cons x [] h s = tt
  IsSorted-cons x (y ∷ xs) h s = (h.0, s)

  filter_by-NoneBefore :
      (test : A → Bool) (x : A) (xs : List A) → NoneBefore x xs → NoneBefore x (filter_by test xs)
  unfolding filter_by
  filter_by-NoneBefore test x [] h = tt
  filter_by-NoneBefore test x (y ∷ xs) h = elim (Bool-cases (test y)) [
    | inl e ↦ rw (e, filter_by) (h.0, filter_by-NoneBefore test x xs h.1)
    | inr e ↦ rw (e, filter_by) (filter_by-NoneBefore test x xs h.1)
  ]

  pub filter_by-IsSorted :
      (test : A → Bool) (xs : List A) → IsSorted before xs → IsSorted before (filter_by test xs)
  unfolding filter_by
  filter_by-IsSorted test [] h = tt
  filter_by-IsSorted test (x ∷ xs) h =
      let rest = filter_by-IsSorted test xs (IsSorted-tail x xs h) in
      elim (Bool-cases (test x)) [
        | inl e ↦
            rw (e, filter_by)
              (IsSorted-cons x (filter_by test xs)
                (filter_by-NoneBefore test x xs (IsSorted-head x xs h)) rest)
        | inr e ↦ rw (e, filter_by) rest
      ]

module _ {ℓ} {A : Type ℓ} where
  swapped :
      (test : A → Bool) (a b : A) (l : List A)
      → Permᴰ (filter_by test (a ∷ b ∷ l)) (filter_by test (b ∷ a ∷ l))
  unfolding filter_by
  swapped test a b l = elim (Bool-cases (test a)) [
    | inl e ↦ elim (Bool-cases (test b)) [
      | inl f ↦ rw (e, f, filter_by) (Permᴰ.swap refl refl)
      | inr f ↦ rw (e, f, filter_by) (Permᴰ.refl (a ∷ filter_by test l))
    ]
    | inr e ↦ elim (Bool-cases (test b)) [
      | inl f ↦ rw (e, f, filter_by) (Permᴰ.refl (b ∷ filter_by test l))
      | inr f ↦ rw (e, f, filter_by) (Permᴰ.refl (filter_by test l))
    ]
  ]

  pub filter_by-perm :
      (test : A → Bool) {xs ys : List A}
      → Permᴰ xs ys
      → Permᴰ (filter_by test xs) (filter_by test ys)
  unfolding filter_by
  filter_by-perm test Permᴰ.nil = Permᴰ.nil
  filter_by-perm test (Permᴰ.cons {a = a} {b = b} {l₁ = l} {l₂ = m} e p) =
      subst (λ x. Permᴰ (filter_by test (a ∷ l)) (filter_by test (x ∷ m))) e
        (elim (Bool-cases (test a)) [
          | inl h ↦ rw (h, filter_by) (Permᴰ.cons refl (filter_by-perm test p))
          | inr h ↦ rw (h, filter_by) (filter_by-perm test p)
        ])
  filter_by-perm test (Permᴰ.swap {a = a} {b = b} {l = l} e f) = rw (← e, ← f) (swapped test a b l)
  filter_by-perm test (Permᴰ.trans p q) =
      Permᴰ.trans (filter_by-perm test p) (filter_by-perm test q)

  pub sum_by-perm : (f : A → ℕ) {xs ys : List A} → Permᴰ xs ys → sum_by f xs ≡ sum_by f ys
  unfolding sum_by
  sum_by-perm f Permᴰ.nil = refl
  sum_by-perm f (Permᴰ.cons e p) = rw (e, sum_by-perm f p) refl
  sum_by-perm f (Permᴰ.swap {a = a} {b = b} {l = l} e g) = rw (← e, ← g) (omega arith)
  sum_by-perm f (Permᴰ.trans p q) = sum_by-perm f p ∙ sum_by-perm f q
