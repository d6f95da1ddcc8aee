-- ===== src/Chunks/Reassembly/Present.antt =====
-- The set of the chunks that are present, and its size.
use retiboard.Base.{
  nat_key, ℕ, zero, suc, ◌≤◌, ◌<◌, ◌≡◌, true, Bool-cases, inl, inr, arith, List, [], ◌∷◌, length,
  All,
}
use retiboard.Base.Sets.{
  contains, add, discard, IsSetOf, length-discard, contains-discard, discard-IsSetOf,
}

All-discard : (n : ℕ) (s : List ℕ) → All (λ i. i < suc n) s → All (λ i. i < n) (discard n s)
unfolding discard
All-discard n [] h = tt
All-discard n (x ∷ s) h = ground (arith, All-discard n s h.1)

length-le_of_below : (n : ℕ) (s : List ℕ) → IsSetOf s → All (λ i. i < n) s → length s ≤ n
length-le_of_below zero [] d h = omega arith
length-le_of_below zero (x ∷ s) d h = absurd (omega arith)
length-le_of_below (suc n) s d h = ground (
  arith,
  length-discard n s d,
  length-le_of_below n (discard n s) (discard-IsSetOf n s d) (All-discard n s h),
)

-- A set of numbers below n that has n elements has every one of them.
pub contains_of_full :
    (n : ℕ) (s : List ℕ)
    → IsSetOf s
    → All (λ i. i < n) s
    → n ≤ length s
    → (i : ℕ) → i < n
    → contains i s ≡ true
contains_of_full n s d h full i lt = elim (Bool-cases (contains i s)) [
  | inl e ↦ e
  | inr e ↦ absurd (omega (arith, length-le_of_below n (i ∷ s) (e, d) (lt, h)))
]

pub add-All : (n i : ℕ) (s : List ℕ) → i < n → All (λ j. j < n) s → All (λ j. j < n) (add i s)
unfolding add
add-All n i s lt h = ground arith

contains-discard_below :
    (n : ℕ) (s : List ℕ)
    → ((i : ℕ) → i < suc n → contains i s ≡ true)
    → (i : ℕ) → i < n
    → contains i (discard n s) ≡ true
contains-discard_below n s h i lt = ground (arith, h i, contains-discard n i s)

-- A set that has every number below n has n elements at least.
pub full_of_contains :
    (n : ℕ) (s : List ℕ) → IsSetOf s → ((i : ℕ) → i < n → contains i s ≡ true) → n ≤ length s
full_of_contains zero s d h = omega arith
full_of_contains (suc n) s d h = ground (
  arith,
  h n,
  length-discard n s d,
  full_of_contains n (discard n s) (discard-IsSetOf n s d) (contains-discard_below n s h),
)
