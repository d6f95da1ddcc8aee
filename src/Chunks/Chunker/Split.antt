-- ===== src/Chunks/Chunker/Split.antt =====
-- `split_encrypted_blob` of retiboard/chunks/chunker.py: its chunks as a whole.
use retiboard.Base.{
  some, dec_lt, ℕ, zero, suc, ◌+◌, ◌-◌, ◌*◌, ◌≤◌, ◌<◌, ◌≡◌, refl, sym, ltb, inl, inr, Bool-cases,
  ltb→lt, List, [], ◌∷◌, ◌++◌, length, drop, min, arith,
}
use retiboard.Chunks.Models.{Bytes, ok, raise, value_error}
use retiboard.Chunks.Bytes.{
  get_elem?, slice, length-slice, drop_all, slice-length-slice, slice-append-drop,
}
use retiboard.Chunks.Chunker.{Chunk, split_loop, split_encrypted_blob}

-- The chunks in order lie side by side from `offset` to the end of the blob: each is the slice of
-- the blob that its offset and size say, is not empty, and has the full chunk size unless the blob
-- ends in it.
abbrev pub Tiles : Bytes → ℕ → ℕ → List Chunk → Type 0
Tiles blob chunk_size offset [] = offset ≡ length blob
Tiles blob chunk_size offset ((start, size, part) ∷ chunks) =
    (start ≡ offset)
    × (part ≡ slice blob start (start + size))
    × (length part ≡ size)
    × (0 < size)
    × (size ≡ min chunk_size (length blob - start))
    × Tiles blob chunk_size (offset + size) chunks

abbrev pub join : List Chunk → Bytes
join [] = []
join ((start, size, part) ∷ chunks) = part ++ join chunks

split_loop-Tiles :
    (fuel : ℕ) (blob : Bytes) (chunk_size offset : ℕ)
    → 0 < chunk_size
    → offset ≤ length blob
    → length blob < offset + fuel
    → (chunks : List Chunk) × (split_loop fuel blob chunk_size offset ≡ ok chunks)
      × Tiles blob chunk_size offset chunks
unfolding split_loop
split_loop-Tiles zero blob chunk_size offset pos le enough = absurd (omega arith)
split_loop-Tiles (suc fuel) blob chunk_size offset pos le enough =
    elim (Bool-cases (ltb offset (length blob))) [
      | inr done ↦ ([], rw done, ground arith)
      | inl more ↦
          let n : ℕ = length (slice blob offset (offset + chunk_size)) in
          let size = length-slice blob offset (offset + chunk_size) in
          let (chunks, e, tiles) =
            split_loop-Tiles fuel blob chunk_size (offset + n) pos (ground (arith, size))
              (ground (arith, size)) in
          (
            (offset, n, slice blob offset (offset + chunk_size)) ∷ chunks,
            rw (more, e),
            (
              refl,
              sym (slice-length-slice blob offset (offset + chunk_size)),
              refl,
              ground (arith, size),
              ground (arith, size),
              tiles,
            ),
          )
    ]

join-Tiles :
    (blob : Bytes) (chunk_size offset : ℕ) (chunks : List Chunk)
    → Tiles blob chunk_size offset chunks
    → join chunks ≡ drop offset blob
join-Tiles blob chunk_size offset [] t = sym (drop_all offset blob (omega arith))
join-Tiles blob chunk_size offset ((start, size, part) ∷ chunks) (at, part_at, len, pos, full, t) =
    rw (part_at, at, join-Tiles blob chunk_size (offset + size) chunks t)
      (slice-append-drop blob offset size)

-- Nothing lies behind the end.
Tiles-end :
    (blob : Bytes) (chunk_size offset : ℕ) (chunks : List Chunk)
    → Tiles blob chunk_size offset chunks
    → length blob ≤ offset
    → length chunks ≡ 0
Tiles-end blob chunk_size offset [] t le = refl
Tiles-end blob chunk_size offset ((start, size, part) ∷ chunks) (at, _, _, pos, full, _) le =
    absurd (omega arith)

count-Tiles :
    (blob : Bytes) (chunk_size offset : ℕ) (chunks : List Chunk)
    → Tiles blob chunk_size offset chunks
    → 0 < chunk_size
    → offset ≤ length blob
    → (length blob ≤ offset + length chunks * chunk_size)
      × (offset + length chunks * chunk_size < length blob + chunk_size)
count-Tiles blob chunk_size offset [] t pos le = omega arith
count-Tiles blob chunk_size offset ((start, size, part) ∷ chunks) (at, _, _, some_bytes, full, t)
      pos le =
    let (low, high) = count-Tiles blob chunk_size (offset + size) chunks t pos (omega arith) in
    elim (Bool-cases (ltb size chunk_size)) [
      | inr whole ↦ (ground arith, ground arith)
      | inl last ↦
          let e : length chunks ≡ 0 =
            Tiles-end blob chunk_size (offset + size) chunks t (ground arith) in
          rw e (
            ground (arith, ltb→lt size chunk_size last),
            ground (arith, ltb→lt size chunk_size last),
          )
    ]

-- A chunk of the tiling is its slice of the blob.
pub Tiles-get :
    (blob : Bytes) (chunk_size from : ℕ) (chunks : List Chunk)
    → Tiles blob chunk_size from chunks
    → (i offset size : ℕ) (part : Bytes) → get_elem? chunks i ≡ some (offset, size, part)
    → (part ≡ slice blob offset (offset + size))
      × (length part ≡ size)
      × (offset + size ≤ length blob)
      × (i < length chunks)
Tiles-get blob cs from [] t i offset size part e = cc
Tiles-get blob cs from ((o, n, p) ∷ chunks) (first, at, len, some_bytes, full, t) zero offset size
      part e =
    ground arith
Tiles-get blob cs from ((o, n, p) ∷ chunks) (_, _, _, _, _, t) (suc i) offset size part e =
    let (a, b, c, d) = Tiles-get blob cs (from + n) chunks t i offset size part e in
    (a, b, c, omega arith)

-- Each byte of the blob lies in a chunk.
pub Tiles-cover :
    (blob : Bytes) (chunk_size from : ℕ) (chunks : List Chunk)
    → Tiles blob chunk_size from chunks
    → (j : ℕ) → from ≤ j
    → j < length blob
    → (i : ℕ) × (c : Chunk) × (get_elem? chunks i ≡ some c) × (c.0 ≤ j) × (j < c.0 + c.1)
Tiles-cover blob cs from [] t j le lt = absurd (omega arith)
Tiles-cover blob cs from ((o, n, p) ∷ chunks) (at, _, _, _, _, t) j le lt =
    elim (dec_lt j (from + n)) [
      | yes here ↦ (0, (o, n, p), refl, omega arith, omega arith)
      | no later ↦
          let (i, c, e, l, r) = Tiles-cover blob cs (from + n) chunks t j (omega arith) lt in
          (suc i, c, e, l, r)
    ]

-- Every blob is split, for every chunk size but 0, which is refused with ValueError. The chunks lie
-- side by side from 0 to the end, put together they are the blob, and their number is that of the
-- blob's length divided by the chunk size, rounded up.
pub split_encrypted_blob-Tiles :
    (blob : Bytes) (chunk_size : ℕ)
    → 0 < chunk_size
    → (split_encrypted_blob blob 0 ≡ raise value_error)
      × (chunks : List Chunk) × (split_encrypted_blob blob chunk_size ≡ ok chunks)
      × Tiles blob chunk_size 0 chunks
      × (join chunks ≡ blob)
      × (length blob ≤ length chunks * chunk_size)
      × (length chunks * chunk_size < length blob + chunk_size)
unfolding split_encrypted_blob
split_encrypted_blob-Tiles blob chunk_size pos =
    let (chunks, e, t) =
      split_loop-Tiles (suc (length blob)) blob chunk_size 0 pos (omega arith) (omega arith) in
    let count = count-Tiles blob chunk_size 0 chunks t pos (omega arith) in
    (refl, chunks, ground arith, t, join-Tiles blob chunk_size 0 chunks t, omega arith, omega arith)
