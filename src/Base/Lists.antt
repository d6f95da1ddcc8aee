-- ===== src/Base/Lists.antt =====
-- Lists measured by native numbers, and filtered by Boolean tests.
use Prim.Native.Nat.{ℕ, zero, suc, ◌+◌, ◌-◌, ◌≤◌, min}
use mathlib.Core.Path.{◌≡◌, refl, ap}
use mathlib.Core.Bool.{Bool, true, false, not, ◌&&◌, ◌||◌}
use mathlib.Core.List.{List, [], ◌∷◌, ◌++◌, map}
use native.Mathlib.Omega.{arith}
use retiboard.Base.Tests.{if◌then◌else◌}

module _ {ℓ} {A : Type ℓ} where
  abbrev pub length : List A → ℕ
  length [] = 0
  length (x ∷ xs) = suc (length xs)

  abbrev pub take : ℕ → List A → List A
  take zero xs = []
  take (suc n) [] = []
  take (suc n) (x ∷ xs) = x ∷ take n xs

  abbrev pub drop : ℕ → List A → List A
  drop zero xs = xs
  drop (suc n) [] = []
  drop (suc n) (x ∷ xs) = drop n xs

  abbrev pub replicate : ℕ → A → List A
  replicate zero a = []
  replicate (suc n) a = a ∷ replicate n a

  -- `[x for x in xs if test(x)]`
  unfoldable pub filter_by : (A → Bool) → List A → List A
  filter_by test [] = []
  filter_by test (x ∷ xs) = if test x then x ∷ filter_by test xs else filter_by test xs

  unfoldable pub all_by : (A → Bool) → List A → Bool
  all_by test [] = true
  all_by test (x ∷ xs) = test x && all_by test xs

  unfoldable pub any_by : (A → Bool) → List A → Bool
  any_by test [] = false
  any_by test (x ∷ xs) = test x || any_by test xs

  -- `sum(f(x) for x in xs)`
  unfoldable pub sum_by : (A → ℕ) → List A → ℕ
  sum_by f [] = 0
  sum_by f (x ∷ xs) = f x + sum_by f xs

  abbrev pub All {κ} : (A → Type κ) → List A → Type κ
  All P [] = Unit
  All P (x ∷ xs) = P x × All P xs

module _ {ℓ} {A : Type ℓ} where
  pub length-append : (xs ys : List A) → length (xs ++ ys) ≡ length xs + length ys
  length-append [] ys = omega arith
  length-append (x ∷ xs) ys = omega (arith, length-append xs ys)

  pub take-append-drop : (n : ℕ) (xs : List A) → take n xs ++ drop n xs ≡ xs
  take-append-drop zero xs = refl
  take-append-drop (suc n) [] = refl
  take-append-drop (suc n) (x ∷ xs) = rw (take-append-drop n xs)

  pub length-take : (n : ℕ) (xs : List A) → length (take n xs) ≡ min n (length xs)
  length-take zero xs = omega arith
  length-take (suc n) [] = omega arith
  length-take (suc n) (x ∷ xs) = omega (arith, length-take n xs)

  pub length-drop : (n : ℕ) (xs : List A) → length (drop n xs) ≡ length xs - n
  length-drop zero xs = omega arith
  length-drop (suc n) [] = omega arith
  length-drop (suc n) (x ∷ xs) = omega (arith, length-drop n xs)

  pub length-replicate : (n : ℕ) (a : A) → length (replicate n a) ≡ n
  length-replicate zero a = refl
  length-replicate (suc n) a = ap suc (length-replicate n a)

  pub length-filter_by-le : (test : A → Bool) (xs : List A) → length (filter_by test xs) ≤ length xs
  unfolding filter_by
  length-filter_by-le test [] = omega arith
  length-filter_by-le test (x ∷ xs) = ground (arith, length-filter_by-le test xs)

  pub length-filter_by-not :
      (test : A → Bool) (xs : List A)
      → length (filter_by (λ x. not (test x)) xs) + length (filter_by test xs) ≡ length xs
  unfolding filter_by
  length-filter_by-not test [] = omega arith
  length-filter_by-not test (x ∷ xs) = ground (arith, length-filter_by-not test xs)

  pub All-append {κ} : (P : A → Type κ) (xs ys : List A) → All P xs → All P ys → All P (xs ++ ys)
  All-append P [] ys hx hy = hy
  All-append P (x ∷ xs) ys hx hy = (hx.0, All-append P xs ys hx.1 hy)

  -- What the filter keeps passes its test.
  pub filter_by-All : (test : A → Bool) (xs : List A) → All (λ x. test x ≡ true) (filter_by test xs)
  unfolding filter_by
  filter_by-All test [] = tt
  filter_by-All test (x ∷ xs) = ground (arith, filter_by-All test xs)

  -- A filter removes nothing where all pass.
  pub filter_by_unchanged :
      (test : A → Bool) (xs : List A) → All (λ x. test x ≡ true) xs → filter_by test xs ≡ xs
  unfolding filter_by
  filter_by_unchanged test [] h = refl
  filter_by_unchanged test (x ∷ xs) h = ground (arith, filter_by_unchanged test xs h.1)

  -- A filter of what a filter leaves.
  pub filter_by_twice :
      (f g : A → Bool) (xs : List A) → filter_by f (filter_by g xs) ≡ filter_by (λ x. f x && g x) xs
  unfolding filter_by
  filter_by_twice f g [] = refl
  filter_by_twice f g (x ∷ xs) = ground (arith, filter_by_twice f g xs)

  pub filter_by-append :
      (test : A → Bool) (xs ys : List A)
      → filter_by test (xs ++ ys) ≡ filter_by test xs ++ filter_by test ys
  unfolding filter_by
  filter_by-append test [] ys = refl
  filter_by-append test (x ∷ xs) ys = ground (arith, filter_by-append test xs ys)

  pub any_by-append :
      (test : A → Bool) (xs ys : List A)
      → any_by test (xs ++ ys) ≡ (any_by test xs || any_by test ys)
  unfolding any_by
  any_by-append test [] ys = refl
  any_by-append test (x ∷ xs) ys = ground (arith, any_by-append test xs ys)

  pub sum_by-append : (f : A → ℕ) (xs ys : List A) → sum_by f (xs ++ ys) ≡ sum_by f xs + sum_by f ys
  unfolding sum_by
  sum_by-append f [] ys = omega arith
  sum_by-append f (x ∷ xs) ys = omega (arith, sum_by-append f xs ys)

  pub sum_by-filter_by-le :
      (f : A → ℕ) (test : A → Bool) (xs : List A) → sum_by f (filter_by test xs) ≤ sum_by f xs
  unfolding sum_by filter_by
  sum_by-filter_by-le f test [] = omega arith
  sum_by-filter_by-le f test (x ∷ xs) = ground (arith, sum_by-filter_by-le f test xs)

  pub length-map {κ} : {B : Type κ} (f : A → B) (xs : List A) → length (map f xs) ≡ length xs
  length-map f [] = refl
  length-map f (x ∷ xs) = ap suc (length-map f xs)

  pub drop-nil : (n : ℕ) → drop {A = A} n [] ≡ []
  drop-nil zero = refl
  drop-nil (suc n) = refl

pub pair_eq {ℓ κ} :
    {A : Type ℓ} {B : Type κ} {a c : A} {b d : B} → a ≡ c → b ≡ d → ◌≡◌ {A = A × B} (a, b) (c, d)
pair_eq p q = λ i. (p i, q i)
