-- ===== src/Chunks/Reassembly/Invariant.antt =====
-- What holds of the buffer while chunks of one blob arrive.
use retiboard.Base.{
  nat_key, ℕ, ◌+◌, ◌≤◌, ◌<◌, ◌≡◌, refl, sym, ◌∙◌, ap, subst, ℕ_discrete, true, ◌⊎◌, inl, inr,
  dec_lt, dec_le, arith, some, some, List, length, All,
}
use retiboard.Base.Sets.{contains, add, IsSetOf, contains-add, add-IsSetOf}
use retiboard.Chunks.Models.{Bytes, ok}
use retiboard.Chunks.Bytes.{slice, get_elem?, get_elem?-slice, eq_of_get_elem?}
use retiboard.Chunks.Bytes.Splice.{
  splice, length-splice, get_elem?-splice_before, get_elem?-splice_in, get_elem?-splice_after,
}
use retiboard.Chunks.Chunker.{Chunk}
use retiboard.Chunks.Chunker.Split.{Tiles, Tiles-get, Tiles-cover}
use retiboard.Chunks.Reassembly.{ReassemblyBuffer, write_verified_chunk, is_complete}
use retiboard.Chunks.Reassembly.Blocks.{write_at-eq}
use retiboard.Chunks.Reassembly.Present.{contains_of_full, add-All}

-- The buffers reached from `b` by writes of chunks of the list, in any order and any number.
pub data Writes (chunks : List Chunk) (b : ReassemblyBuffer) : ReassemblyBuffer → Type 0 where
  start : Writes chunks b b
  write :
      {c d : ReassemblyBuffer} (i offset size : ℕ) (part : Bytes)
      → Writes chunks b c
      → get_elem? chunks i ≡ some (offset, size, part)
      → write_verified_chunk c i offset part ≡ ok d
      → Writes chunks b d

module _ (blob : Bytes) (chunk_size : ℕ) (chunks : List Chunk)
    (tiles : Tiles blob chunk_size 0 chunks) where
  pub record Holds (b : ReassemblyBuffer) : Type 0 where
    pub file : Bytes
    pub open_file : b.temp ≡ some file
    pub whole : length file ≡ length blob
    pub counted : b.chunk_count ≡ length chunks
    pub set : IsSetOf b.present
    pub below : All (λ i. i < length chunks) b.present
    pub written :
        (i j : ℕ) (c : Chunk)
        → get_elem? chunks i ≡ some c
        → contains i b.present ≡ true
        → c.0 ≤ j
        → j < c.0 + c.1
        → get_elem? file j ≡ get_elem? blob j

  -- The file after the write of a chunk.
  spliced : {b : ReassemblyBuffer} → Holds b → ℕ → Bytes → Bytes
  spliced h offset part = splice offset part h.file

  abbrev written_buffer : ReassemblyBuffer → ℕ → Bytes → ReassemblyBuffer
  written_buffer b i file = record b {
    files = record { temp = some file; final = b.final };
    present = add i b.present;
  }

  write-eq :
      {b : ReassemblyBuffer} (i offset : ℕ) (part : Bytes) (h : Holds b)
      → offset + length part ≤ length h.file
      → write_verified_chunk b i offset part ≡ ok (written_buffer b i (splice offset part h.file))
  unfolding write_verified_chunk
  write-eq {b} i offset part h within =
      rw (h.open_file, write_verified_chunk, write_at-eq offset part h.file within) refl

  -- A byte of the file after the write is the blob's, if the write covers it or it was so before.
  splice-agrees :
      (file : Bytes) (offset size : ℕ) (part : Bytes)
      → part ≡ slice blob offset (offset + size)
      → length part ≡ size
      → offset + length part ≤ length file
      → (j : ℕ) → ((offset ≤ j) × (j < offset + size)) ⊎ (get_elem? file j ≡ get_elem? blob j)
      → get_elem? (splice offset part file) j ≡ get_elem? blob j
  splice-agrees file offset size part at len within j cover = elim cover [
    | inl (le, lt) ↦
        get_elem?-splice_in offset part file within j le (omega arith)
        ∙ rw at (get_elem?-slice blob offset size j le lt)
    | inr old ↦ elim (dec_le offset j) [
      | no before ↦ get_elem?-splice_before offset part file within j (omega arith) ∙ old
      | yes le ↦ elim (dec_lt j (offset + size)) [
        | no after ↦ get_elem?-splice_after offset part file within j (omega arith) ∙ old
        | yes lt ↦
            get_elem?-splice_in offset part file within j le (omega arith)
            ∙ rw at (get_elem?-slice blob offset size j le lt)
      ]
    ]
  ]

  -- A chunk that is present after the write is the chunk written, or was present before.
  covered :
      {b : ReassemblyBuffer} (i offset size : ℕ) (part : Bytes)
      → get_elem? chunks i ≡ some (offset, size, part)
      → (h : Holds b) → (k j : ℕ) (c : Chunk) → get_elem? chunks k ≡ some c
      → contains k (add i b.present) ≡ true
      → c.0 ≤ j
      → j < c.0 + c.1
      → ((offset ≤ j) × (j < offset + size)) ⊎ (get_elem? h.file j ≡ get_elem? blob j)
  covered {b} i offset size part e h k j c get has l r = elim (ℕ_discrete i k) [
    | yes now ↦
        let same_chunk : some (offset, size, part) ≡ some c = sym e ∙ rw now get in
        inl (ground arith)
    | no other ↦ inr (h.written k j c get (ground (arith, contains-add i k b.present)) l r)
  ]

  pub write-Holds :
      {b d : ReassemblyBuffer} (i offset size : ℕ) (part : Bytes)
      → get_elem? chunks i ≡ some (offset, size, part)
      → Holds b
      → write_verified_chunk b i offset part ≡ ok d
      → Holds d
  write-Holds {b} {d} i offset size part e h w =
      let (at, len, end, in_range) =
        Tiles-get blob chunk_size 0 chunks tiles i offset size part e in
      let within : offset + length part ≤ length h.file = omega (arith, h.whole) in
      let result : written_buffer b i (splice offset part h.file) ≡ d =
        cc (write-eq i offset part h within) in
      subst Holds result (record {
        file = splice offset part h.file;
        open_file = refl;
        whole = length-splice offset part h.file within ∙ h.whole;
        counted = h.counted;
        set = add-IsSetOf i b.present h.set;
        below = add-All (length chunks) i b.present in_range h.below;
        written = λ k j c get has l r.
            splice-agrees h.file offset size part at len within j
              (covered i offset size part e h k j c get has l r);
      })

  pub write_succeeds :
      {b : ReassemblyBuffer} (i offset size : ℕ) (part : Bytes)
      → get_elem? chunks i ≡ some (offset, size, part)
      → Holds b
      → (d : ReassemblyBuffer) × (write_verified_chunk b i offset part ≡ ok d)
        × (contains i d.present ≡ true)
  write_succeeds {b} i offset size part e h =
      let (at, len, end, in_range) =
        Tiles-get blob chunk_size 0 chunks tiles i offset size part e in
      (
        written_buffer b i (splice offset part h.file),
        write-eq i offset part h (omega (arith, h.whole)),
        ground (arith, contains-add i i b.present),
      )

  pub complete-Holds : {b : ReassemblyBuffer} → Holds b → is_complete b ≡ true → b.temp ≡ some blob
  unfolding is_complete
  complete-Holds {b} h done = h.open_file ∙ ap some (eq_of_get_elem? h.file blob h.whole agree)
    where
      agree : (j : ℕ) → j < length blob → get_elem? h.file j ≡ get_elem? blob j
      agree j lt =
          let (i, c, e, l, r) = Tiles-cover blob chunk_size 0 chunks tiles j (omega arith) lt in
          let (_, _, _, in_range) = Tiles-get blob chunk_size 0 chunks tiles i c.0 c.1 c.2 e in
          h.written i j c e
            (contains_of_full (length chunks) b.present h.set h.below (ground arith) i in_range) l r
