-- ===== src/Chunks/Bytes.antt =====
-- Slices of a byte string, as Python's `blob[a:b]` reads them.
pub mod Splice
use retiboard.Base.{
  ℕ, zero, suc, ◌+◌, ◌-◌, ◌≤◌, ◌<◌, min, ◌≡◌, refl, ap, ◌∙◌, arith, List, [], ◌∷◌, ◌++◌, length,
  take, drop, length-take, length-drop, take-append-drop, Option, none, some,
}

module _ {ℓ} {A : Type ℓ} where
  abbrev pub get_elem? : List A → ℕ → Option A
  get_elem? [] i = none
  get_elem? (x ∷ xs) zero = some x
  get_elem? (x ∷ xs) (suc i) = get_elem? xs i

  -- `xs[start: stop]`, both ends cut to the length.
  abbrev pub slice : List A → ℕ → ℕ → List A
  slice xs start stop = take (stop - start) (drop start xs)

  pub length-slice :
      (xs : List A) (start stop : ℕ)
      → length (slice xs start stop) ≡ min (stop - start) (length xs - start)
  length-slice xs start stop =
      omega (arith, length-take (stop - start) (drop start xs), length-drop start xs)

  pub drop_all : (n : ℕ) (xs : List A) → length xs ≤ n → drop n xs ≡ []
  drop_all zero [] h = refl
  drop_all zero (x ∷ xs) h = absurd (omega arith)
  drop_all (suc n) [] h = refl
  drop_all (suc n) (x ∷ xs) h = drop_all n xs (omega arith)

  pub drop-drop : (m n : ℕ) (xs : List A) → drop m (drop n xs) ≡ drop (n + m) xs
  drop-drop m zero xs = ground arith
  drop-drop m (suc n) [] =
      let e : suc n + m ≡ suc (n + m) = omega arith in rw (e, drop_all m [] (omega arith)) refl
  drop-drop m (suc n) (x ∷ xs) =
      let e : suc n + m ≡ suc (n + m) = omega arith in rw e (drop-drop m n xs)

  pub take_all : (n : ℕ) (xs : List A) → length xs ≤ n → take n xs ≡ xs
  take_all zero [] h = refl
  take_all zero (x ∷ xs) h = absurd (omega arith)
  take_all (suc n) [] h = refl
  take_all (suc n) (x ∷ xs) h = ap (◌∷◌ x) (take_all n xs (omega arith))

  pub get_elem?-drop : (n i : ℕ) (xs : List A) → get_elem? (drop n xs) i ≡ get_elem? xs (n + i)
  get_elem?-drop zero i xs = ground arith
  get_elem?-drop (suc n) i [] = refl
  get_elem?-drop (suc n) i (x ∷ xs) =
      let e : suc n + i ≡ suc (n + i) = omega arith in rw e (get_elem?-drop n i xs)

  pub get_elem?-take : (n i : ℕ) (xs : List A) → i < n → get_elem? (take n xs) i ≡ get_elem? xs i
  get_elem?-take zero i xs h = absurd (omega arith)
  get_elem?-take (suc n) i [] h = refl
  get_elem?-take (suc n) zero (x ∷ xs) h = refl
  get_elem?-take (suc n) (suc i) (x ∷ xs) h = get_elem?-take n i xs (omega arith)

  pub get_elem?-append_left :
      (i : ℕ) (xs ys : List A) → i < length xs → get_elem? (xs ++ ys) i ≡ get_elem? xs i
  get_elem?-append_left i [] ys h = absurd (omega arith)
  get_elem?-append_left zero (x ∷ xs) ys h = refl
  get_elem?-append_left (suc i) (x ∷ xs) ys h = get_elem?-append_left i xs ys (omega arith)

  pub get_elem?-append_right :
      (i : ℕ) (xs ys : List A)
      → length xs ≤ i
      → get_elem? (xs ++ ys) i ≡ get_elem? ys (i - length xs)
  get_elem?-append_right i [] ys h = ground arith
  get_elem?-append_right zero (x ∷ xs) ys h = absurd (omega arith)
  get_elem?-append_right (suc i) (x ∷ xs) ys h =
      let e : suc i - suc (length xs) ≡ i - length xs = omega arith in
      rw e (get_elem?-append_right i xs ys (omega arith))

  -- Lists of one length that agree at each index are equal.
  pub eq_of_get_elem? :
      (xs ys : List A)
      → length xs ≡ length ys
      → ((i : ℕ) → i < length ys → get_elem? xs i ≡ get_elem? ys i)
      → xs ≡ ys
  eq_of_get_elem? [] [] n h = refl
  eq_of_get_elem? [] (y ∷ ys) n h = absurd (omega arith)
  eq_of_get_elem? (x ∷ xs) [] n h = absurd (omega arith)
  eq_of_get_elem? (x ∷ xs) (y ∷ ys) n h =
      let first : some x ≡ some y = h 0 (omega arith) in
      let rest : xs ≡ ys = eq_of_get_elem? xs ys (omega arith) (λ i lt. h (suc i) (omega arith)) in
      cc

  take-length-take : (n : ℕ) (xs : List A) → take (length (take n xs)) xs ≡ take n xs
  take-length-take zero xs = refl
  take-length-take (suc n) [] = refl
  take-length-take (suc n) (x ∷ xs) = ap (◌∷◌ x) (take-length-take n xs)

  -- A slice is the slice up to its own length.
  pub slice-length-slice :
      (xs : List A) (start stop : ℕ)
      → slice xs start (start + length (slice xs start stop)) ≡ slice xs start stop
  slice-length-slice xs start stop =
      let n : ℕ = length (slice xs start stop) in
      let e : start + n - start ≡ n = omega arith in
      rw e (take-length-take (stop - start) (drop start xs))

  -- Two slices side by side.
  pub slice-append-drop :
      (xs : List A) (start n : ℕ)
      → slice xs start (start + n) ++ drop (start + n) xs ≡ drop start xs
  slice-append-drop xs start n =
      let e : start + n - start ≡ n = omega arith in
      rw (e, ← drop-drop n start xs) (take-append-drop n (drop start xs))

  pub get_elem?-slice :
      (xs : List A) (start n j : ℕ)
      → start ≤ j
      → j < start + n
      → get_elem? (slice xs start (start + n)) (j - start) ≡ get_elem? xs j
  get_elem?-slice xs start n j le lt =
      let e : start + (j - start) ≡ j = omega arith in
      get_elem?-take (start + n - start) (j - start) (drop start xs) (omega arith)
      ∙ get_elem?-drop start (j - start) xs
      ∙ ap (get_elem? xs) e
