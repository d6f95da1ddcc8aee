-- ===== src/Base/Sort/Perm.antt =====
-- Sorting by a strict order forgets the order that a list has, where no two elements are tied.
use mathlib.Core.Path.{◌≡◌, refl, subst, ◌∙◌}
use mathlib.Core.Bool.{Bool, true, false, not, ◌||◌}
use mathlib.Core.Logic.{inl, inr}
use mathlib.Core.List.{List, [], ◌∷◌, Permᴰ}
use mathlib.Core.List.Permᴰ
use native.Mathlib.Omega.{arith}
use retiboard.Base.Tests.{Bool-cases}
use retiboard.Base.Lists.{All, any_by}
use retiboard.Base.Sort.{insert_sorted, sort_by}

-- A strict order that may tie elements.
pub record IsStrict {ℓ} {A : Type ℓ} (before : A → A → Bool) : Type ℓ where
  pub asymmetric : (x y : A) → before x y ≡ true → before y x ≡ false
  pub transitive : (x y z : A) → before x y ≡ true → before y z ≡ true → before x z ≡ true

module _ {ℓ} {A : Type ℓ} (before : A → A → Bool) where
  abbrev pub Ordered : A → A → Type 0
  Ordered x y = before x y ≡ not (before y x)

  -- No two elements are tied.
  abbrev pub Untied : List A → Type ℓ
  Untied [] = Unit
  Untied (x ∷ xs) = All (Ordered x) xs × Untied xs

or_swap : (a b c : Bool) → (a || (b || c)) ≡ (b || (a || c))
or_swap a b c = ground arith

module _ {ℓ} {A : Type ℓ} where
  pub All-Permᴰ {κ} : (P : A → Type κ) {xs ys : List A} → Permᴰ xs ys → All P xs → All P ys
  All-Permᴰ P Permᴰ.nil h = tt
  All-Permᴰ P (Permᴰ.cons e p) h = (subst P e h.0, All-Permᴰ P p h.1)
  All-Permᴰ P (Permᴰ.swap e f) h = (subst P f h.1.0, (subst P e h.0, h.1.1))
  All-Permᴰ P (Permᴰ.trans p q) h = All-Permᴰ P q (All-Permᴰ P p h)

  Ordered-sym : (before : A → A → Bool) (x y : A) → Ordered before x y → Ordered before y x
  Ordered-sym before x y h = ground arith

  Untied-Permᴰ :
      (before : A → A → Bool) {xs ys : List A} → Permᴰ xs ys → Untied before xs → Untied before ys
  Untied-Permᴰ before Permᴰ.nil u = tt
  Untied-Permᴰ before (Permᴰ.cons {a = a} {b = b} {l₁ = l} {l₂ = m} e p) u = (
    subst (λ x. All (Ordered before x) m) e (All-Permᴰ (Ordered before a) p u.0),
    Untied-Permᴰ before p u.1,
  )
  Untied-Permᴰ before (Permᴰ.swap {a = a} {b = b} {b' = b'} {l = l} e f) u =
      subst (λ x. Untied before (x ∷ b' ∷ l)) f
        (subst (λ x. Untied before (b ∷ x ∷ l)) e
          ((Ordered-sym before a b u.0.0, u.1.0), (u.0.1, u.1.1)))
  Untied-Permᴰ before (Permᴰ.trans p q) u = Untied-Permᴰ before q (Untied-Permᴰ before p u)

module _ {ℓ} {A : Type ℓ} (before : A → A → Bool) (strict : IsStrict before) where
  insert_sorted_swap :
      (x y : A) (l : List A)
      → before x y ≡ not (before y x)
      → insert_sorted before x (insert_sorted before y l)
        ≡ insert_sorted before y (insert_sorted before x l)
  unfolding insert_sorted
  insert_sorted_swap x y [] o = ground arith
  insert_sorted_swap x y (z ∷ l) o =
      ground (arith, insert_sorted_swap x y l o, strict.transitive z x y, strict.transitive z y x)

  -- The sorted list depends on the elements only.
  pub sort_by-Permᴰ :
      {xs ys : List A} → Permᴰ xs ys → Untied before xs → sort_by before xs ≡ sort_by before ys
  unfolding sort_by
  sort_by-Permᴰ Permᴰ.nil u = refl
  sort_by-Permᴰ (Permᴰ.cons {b = b} e p) u = rw (e, sort_by-Permᴰ p u.1)
  sort_by-Permᴰ (Permᴰ.swap {a = a} {b = b} {l = l} e f) u =
      rw (← e, ← f) (insert_sorted_swap a b (sort_by before l) u.0.0)
  sort_by-Permᴰ (Permᴰ.trans p q) u = sort_by-Permᴰ p u ∙ sort_by-Permᴰ q (Untied-Permᴰ before p u)

module _ {ℓ} {A : Type ℓ} (before : A → A → Bool) where
  insert_sorted-perm : (x : A) (xs : List A) → Permᴰ (insert_sorted before x xs) (x ∷ xs)
  unfolding insert_sorted
  insert_sorted-perm x [] = Permᴰ.refl (x ∷ [])
  insert_sorted-perm x (y ∷ ys) = elim (Bool-cases (before y x)) [
    | inl e ↦ rw e (Permᴰ.trans (Permᴰ.cons refl (insert_sorted-perm x ys)) (Permᴰ.swap refl refl))
    | inr e ↦ rw e (Permᴰ.refl (x ∷ y ∷ ys))
  ]

  -- A sorted list has the elements of the list.
  pub sort_by-perm : (xs : List A) → Permᴰ (sort_by before xs) xs
  unfolding sort_by
  sort_by-perm [] = Permᴰ.nil
  sort_by-perm (x ∷ xs) =
      Permᴰ.trans (insert_sorted-perm x (sort_by before xs)) (Permᴰ.cons refl (sort_by-perm xs))

pub any_by-Permᴰ {ℓ} :
    {A : Type ℓ} (test : A → Bool) {xs ys : List A} → Permᴰ xs ys → any_by test xs ≡ any_by test ys
unfolding any_by
any_by-Permᴰ test Permᴰ.nil = refl
any_by-Permᴰ test (Permᴰ.cons e p) = rw (e, any_by-Permᴰ test p) refl
any_by-Permᴰ test (Permᴰ.swap {a = a} {b = b} {l = l} e f) =
    rw (← e, ← f) (or_swap (test a) (test b) (any_by test l))
any_by-Permᴰ test (Permᴰ.trans p q) = any_by-Permᴰ test p ∙ any_by-Permᴰ test q
