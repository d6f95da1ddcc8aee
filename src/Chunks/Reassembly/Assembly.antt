-- ===== src/Chunks/Reassembly/Assembly.antt =====
-- A session of `ReassemblyBuffer`: a fresh buffer, chunks in any order, each any number of times, and
-- `finalize`.
use retiboard.Base.{
  ◌↔◌, le→leb, nat_key, ℕ, ◌<◌, ◌≡◌, refl, ◌∙◌, suc, if◌then◌else◌, subst, ltb, Bool-cases, inl,
  inr, arith, true, String, same, same_refl, none, some, List, [], length, length-replicate,
}
use retiboard.Base.Sets.{contains}
use retiboard.Chunks.Models.{Bytes, Result, ok, raise, value_error, file_not_found}
use retiboard.Chunks.Chunker.{Chunk, split_encrypted_blob}
use retiboard.Chunks.Chunker.Split.{Tiles, split_encrypted_blob-Tiles}
use retiboard.Chunks.Reassembly.{Files, ReassemblyBuffer, init, reserve, is_complete, finalize}
use retiboard.Chunks.Reassembly.Present.{full_of_contains, contains_of_full}
use retiboard.Chunks.Reassembly.Blocks.{read_blocks-drop}
use retiboard.Chunks.Reassembly.Invariant.{Writes, start, write, Holds, write-Holds, complete-Holds}

-- The buffer that a session for a blob of these chunks begins with.
abbrev pub fresh : Files → Bytes → List Chunk → ReassemblyBuffer
fresh files blob chunks = reserve (init files (length blob) (length chunks))

module _ (blob : Bytes) (chunk_size : ℕ) (chunks : List Chunk)
    (tiles : Tiles blob chunk_size 0 chunks) where
  fresh-Holds : (files : Files) → Holds blob chunk_size chunks tiles (fresh files blob chunks)
  unfolding reserve init contains
  fresh-Holds files = elim (Bool-cases (ltb 0 (length blob))) [
    | inl some_bytes ↦ record {
      file = _;
      open_file = refl;
      whole = rw (some_bytes, length-replicate) refl;
      counted = refl;
      set = tt;
      below = tt;
      written = λ i j c e has l r. cc;
    }
    | inr empty ↦ record {
      file = _;
      open_file = refl;
      whole = rw empty (ground arith);
      counted = refl;
      set = tt;
      below = tt;
      written = λ i j c e has l r. cc;
    }
  ]

  Writes-Holds :
      (files : Files) {b : ReassemblyBuffer}
      → Writes chunks (fresh files blob chunks) b
      → Holds blob chunk_size chunks tiles b
  Writes-Holds files start = fresh-Holds files
  Writes-Holds files (write i offset size part before e w) =
      write-Holds blob chunk_size chunks tiles i offset size part e (Writes-Holds files before) w

module _ (sha256 : Bytes → String) where
  -- The outcome of the replacement after other sessions have done what they do to the files.
  abbrev pub replaced : ReassemblyBuffer → Files → Result ReassemblyBuffer
  replaced b files = elim files.temp [
    | some moved ↦ ok (record b { files = record { temp = none; final = some moved } })
    | none ↦ elim files.final [
      | some _ ↦ ok (record b { files = files })
      | none ↦ raise file_not_found
    ]
  ]

  -- `finalize` on an existing file: with another hash than the expected one it is refused, and else
  -- the file is moved; if other sessions have moved it in the meantime, that is an error only where
  -- the final file is missing too. It never runs out of blocks to read.
  pub finalize_lem :
      (others : Files → Files) (b : ReassemblyBuffer) (expected_blob_hash : String) (file : Bytes)
      → b.temp ≡ some file
      → finalize sha256 others b expected_blob_hash ≡ (
          if same (sha256 file) expected_blob_hash
          then replaced b (others b.files)
          else raise value_error)
  unfolding finalize
  finalize_lem others b expected_blob_hash file e =
      rw (e, finalize, read_blocks-drop (suc (length file)) file 0 [] (omega arith) (omega arith))
        (ground arith)

-- A blob is split, and its chunks are written in any order and number into a fresh buffer. If the
-- buffer then calls itself complete, the temporary file is the blob, and `finalize` for the blob's
-- hash succeeds and leaves the blob as the final file.
pub assembly_complete :
    (sha256 : Bytes → String) (blob : Bytes) (chunk_size : ℕ) (files : Files) (chunks : List Chunk)
    (b : ReassemblyBuffer)
    → 0 < chunk_size
    → split_encrypted_blob blob chunk_size ≡ ok chunks
    → Writes chunks (fresh files blob chunks) b
    → is_complete b ≡ true
    → (b.temp ≡ some blob)
      × (finalize sha256 (λ f. f) b (sha256 blob)
          ≡ ok (record b { files = record { temp = none; final = some blob } }))
assembly_complete sha256 blob chunk_size files chunks b pos e w done =
    let (_, made, split, t, _, _, _) = split_encrypted_blob-Tiles blob chunk_size pos in
    let same_chunks : made ≡ chunks = cc in
    let tiles : Tiles blob chunk_size 0 chunks = subst (Tiles blob chunk_size 0) same_chunks t in
    let whole : b.temp ≡ some blob =
      complete-Holds blob chunk_size chunks tiles
        (Writes-Holds blob chunk_size chunks tiles files w) done in
    (whole, finalize_lem sha256 (λ f. f) b (sha256 blob) blob whole ∙ rw (same_refl, whole) refl)

-- The buffer of such a session calls itself complete exactly when every chunk has been written.
is_complete_iff :
    (blob : Bytes) (chunk_size : ℕ) (files : Files) (chunks : List Chunk) (b : ReassemblyBuffer)
    → 0 < chunk_size
    → split_encrypted_blob blob chunk_size ≡ ok chunks
    → Writes chunks (fresh files blob chunks) b
    → (is_complete b ≡ true) ↔ ((i : ℕ) → i < length chunks → contains i b.present ≡ true)
unfolding is_complete
is_complete_iff blob chunk_size files chunks b pos e w =
    let (_, made, split, t, _, _, _) = split_encrypted_blob-Tiles blob chunk_size pos in
    let same_chunks : made ≡ chunks = cc in
    let tiles : Tiles blob chunk_size 0 chunks = subst (Tiles blob chunk_size 0) same_chunks t in
    let h = Writes-Holds blob chunk_size chunks tiles files w in
    (
      λ done. contains_of_full (length chunks) b.present h.set h.below (ground arith),
      λ all. le→leb _ _ (rw h.counted (full_of_contains (length chunks) b.present h.set all)),
    )
