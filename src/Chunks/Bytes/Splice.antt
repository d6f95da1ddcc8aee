-- ===== src/Chunks/Bytes/Splice.antt =====
-- A stretch of a byte string replaced by another of the same length.
use retiboard.Base.{
  ℕ, ◌+◌, ◌-◌, ◌≤◌, ◌<◌, ◌≡◌, ◌∙◌, ap, arith, List, ◌++◌, length, take, drop, length-take,
  length-drop, length-append,
}
use retiboard.Chunks.Bytes.{
  get_elem?, get_elem?-append_left, get_elem?-append_right, get_elem?-take, get_elem?-drop,
}

abbrev pub splice {ℓ} : {A : Type ℓ} → ℕ → List A → List A → List A
splice offset mid xs = take offset xs ++ (mid ++ drop (offset + length mid) xs)

module _ {ℓ} {A : Type ℓ} (offset : ℕ) (mid xs : List A)
    (within : offset + length mid ≤ length xs) where
  length_before : length (take offset xs) ≡ offset
  length_before = omega (arith, length-take offset xs)

  pub length-splice : length (splice offset mid xs) ≡ length xs
  length-splice = omega (
    arith,
    length_before,
    length-append (take offset xs) (mid ++ drop (offset + length mid) xs),
    length-append mid (drop (offset + length mid) xs),
    length-drop (offset + length mid) xs,
  )

  pub get_elem?-splice_before :
      (i : ℕ) → i < offset → get_elem? (splice offset mid xs) i ≡ get_elem? xs i
  get_elem?-splice_before i h =
      get_elem?-append_left i (take offset xs) _ (omega (arith, length_before))
      ∙ get_elem?-take offset i xs h

  get_elem?-splice_behind :
      (i : ℕ)
      → offset ≤ i
      → get_elem? (splice offset mid xs) i
        ≡ get_elem? (mid ++ drop (offset + length mid) xs) (i - offset)
  get_elem?-splice_behind i h =
      get_elem?-append_right i (take offset xs) _ (omega (arith, length_before))
      ∙ ap (λ n. get_elem? (mid ++ drop (offset + length mid) xs) (i - n)) length_before

  pub get_elem?-splice_in :
      (i : ℕ)
      → offset ≤ i
      → i < offset + length mid
      → get_elem? (splice offset mid xs) i ≡ get_elem? mid (i - offset)
  get_elem?-splice_in i h k =
      get_elem?-splice_behind i h ∙ get_elem?-append_left (i - offset) mid _ (omega arith)

  pub get_elem?-splice_after :
      (i : ℕ) → offset + length mid ≤ i → get_elem? (splice offset mid xs) i ≡ get_elem? xs i
  get_elem?-splice_after i h =
      let e : offset + length mid + (i - offset - length mid) ≡ i = omega arith in
      get_elem?-splice_behind i (omega arith)
      ∙ get_elem?-append_right (i - offset) mid _ (omega arith)
      ∙ get_elem?-drop (offset + length mid) (i - offset - length mid) xs
      ∙ ap (get_elem? xs) e
