-- ===== src/Base/Sets/Parts.antt =====
-- Parts of a list of different elements, and what a list loses with them.
use Prim.Native.Nat.{ℕ, zero, suc, ◌+◌, ◌≤◌}
use mathlib.Core.Path.{◌≡◌}
use mathlib.Core.Bool.{Bool, true, false, not, ◌&&◌}
use mathlib.Core.List.{List, [], ◌∷◌}
use native.Mathlib.Omega.{arith}
use retiboard.Base.Keys.{Key}
use retiboard.Base.Lists.{length, take, filter_by, length-filter_by-le}
use retiboard.Base.Sets.{contains, IsSetOf}

module _ {ℓ} {A : Type ℓ} ⦃e : Key A⦄ where
  pub contains-filter_by :
      (a : A) (test : A → Bool) (xs : List A)
      → contains a (filter_by test xs) ≡ (test a && contains a xs)
  unfolding contains filter_by
  contains-filter_by a test [] = ground arith
  contains-filter_by a test (x ∷ xs) = ground (arith, contains-filter_by a test xs)

  pub filter_by-IsSetOf : (test : A → Bool) (xs : List A) → IsSetOf xs → IsSetOf (filter_by test xs)
  unfolding filter_by
  filter_by-IsSetOf test [] h = tt
  filter_by-IsSetOf test (x ∷ xs) h =
      ground (arith, filter_by-IsSetOf test xs h.1, contains-filter_by x test xs)

  pub contains-take :
      (a : A) (n : ℕ) (xs : List A) → contains a (take n xs) ≡ true → contains a xs ≡ true
  unfolding contains
  contains-take a zero xs h = cc
  contains-take a (suc n) [] h = h
  contains-take a (suc n) (x ∷ xs) h = ground (arith, contains-take a n xs)

  pub take-IsSetOf : (n : ℕ) (xs : List A) → IsSetOf xs → IsSetOf (take n xs)
  take-IsSetOf zero xs h = tt
  take-IsSetOf (suc n) [] h = tt
  take-IsSetOf (suc n) (x ∷ xs) h = ground (arith, take-IsSetOf n xs h.1, contains-take x n xs)

  none_less :
      (a : A) (s xs : List A)
      → length (filter_by (λ x. not (contains x (a ∷ s))) xs)
        ≤ length (filter_by (λ x. not (contains x s)) xs)
  unfolding contains filter_by
  none_less a s [] = omega arith
  none_less a s (x ∷ xs) = ground (arith, none_less a s xs)

  contains_self : (a : A) (s : List A) → contains a (a ∷ s) ≡ true
  unfolding contains
  contains_self a s = ground arith

  contains_more : (a x : A) (s : List A) → contains a s ≡ true → contains a (x ∷ s) ≡ true
  unfolding contains
  contains_more a x s h = ground arith

  one_less :
      (a : A) (s xs : List A)
      → contains a s ≡ false
      → contains a xs ≡ true
      → suc (length (filter_by (λ x. not (contains x (a ∷ s))) xs))
        ≤ length (filter_by (λ x. not (contains x s)) xs)
  unfolding contains filter_by
  one_less a s [] h k = cc
  one_less a s (x ∷ xs) h k = ground (arith, one_less a s xs h, none_less a s xs)

  -- Without the elements of a set that it contains, a list is shorter by at least as many.
  pub length-filter_by-contains :
      (s xs : List A)
      → IsSetOf s
      → ((a : A) → contains a s ≡ true → contains a xs ≡ true)
      → length s + length (filter_by (λ x. not (contains x s)) xs) ≤ length xs
  unfolding contains
  length-filter_by-contains [] xs h sub =
      omega (arith, length-filter_by-le (λ x. not (contains x [])) xs)
  length-filter_by-contains (a ∷ s) xs h sub = omega (
    arith,
    one_less a s xs h.0 (sub a (contains_self a s)),
    length-filter_by-contains s xs h.1 (λ b k. sub b (contains_more b a s k)),
  )
