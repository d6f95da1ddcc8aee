-- ===== src/Chunks/Validator/Exact.antt =====
-- `prevalidate` on any chunk, and on the chunks of the sender's own split.
use retiboard.Base.{
  suc, leb, true, false, Bool-cases, inl, ap, inr, Option, List, subst, sym, ◌∙◌, nat_key, ℕ, ◌+◌,
  ◌≤◌, ◌<◌, ◌≡◌, refl, ◌↔◌, ◌⊎◌, arith, String, some, length,
}
use retiboard.Base.Int.{ℤ, pos, negsuc, same_number, ◌+ℤ◌, above}
use retiboard.Base.Dict.{Dict, lookup}
use retiboard.Chunks.Models.{BlobKind, ChunkManifest, ChunkManifestEntry, Bytes, ok}
use retiboard.Chunks.Bytes.{get_elem?}
use retiboard.Chunks.Chunker.{Chunk, split_encrypted_blob, build_chunk_manifest, index_entries}
use retiboard.Chunks.Chunker.Manifest.{lookup-index_entries, build_chunk_manifest-eq}
use retiboard.Chunks.Chunker.Split.{Tiles, Tiles-get, split_encrypted_blob-Tiles}
use retiboard.Chunks.Validator.{prevalidate, prevalidate_at}

-- `n` bytes from the offset on do not end after the size.
abbrev pub EndsWithin : (offset : ℤ) (n : ℕ) (blob_size : ℤ) → Type 0
EndsWithin (pos o) n (pos b) = o + n ≤ b
EndsWithin (negsuc o) n (pos b) = n ≤ b + suc o
EndsWithin (pos o) n (negsuc b) = o + n + suc b ≤ 0
EndsWithin (negsuc o) n (negsuc b) = n + suc b ≤ suc o

same_number_iff : (x y : ℤ) → (same_number x y ≡ true) ↔ (x ≡ y)
unfolding same_number
same_number_iff (pos m) (pos n) = (λ h. ap pos (ground arith), λ h. ground arith)
same_number_iff (pos m) (negsuc n) = (λ h. cc, λ h. cc)
same_number_iff (negsuc m) (pos n) = (λ h. cc, λ h. cc)
same_number_iff (negsuc m) (negsuc n) = (λ h. ap negsuc (ground arith), λ h. ground arith)

above_iff :
    (offset : ℤ) (n : ℕ) (blob_size : ℤ)
    → (above (offset +ℤ pos n) blob_size ≡ false) ↔ EndsWithin offset n blob_size
unfolding above ◌+ℤ◌
above_iff (pos o) n (pos b) = (λ h. ground arith, λ h. ground arith)
above_iff (pos o) n (negsuc b) = (λ h. cc, λ h. absurd (omega arith))
above_iff (negsuc o) n (pos b) = elim (Bool-cases (leb (suc o) n)) [
  | inl e ↦ rw e (λ h. ground arith, λ h. ground arith)
  | inr e ↦ rw e (λ h. ground arith, λ h. refl)
]
above_iff (negsuc o) n (negsuc b) = elim (Bool-cases (leb (suc o) n)) [
  | inl e ↦ rw e (λ h. cc, λ h. absurd (ground arith))
  | inr e ↦ rw e (λ h. ground arith, λ h. ground arith)
]

module _ (sha256 : Bytes → String) where
  -- The manifest has this entry at this index, and the chunk fits it.
  pub record Admits (manifest : ChunkManifest) (entries : Dict ℕ ChunkManifestEntry)
      (chunk_index : ℤ) (peer assigned : String) (bytes : Bytes) (entry : ChunkManifestEntry)
      : Type 0 where
    pub index : ℕ
    pub nonneg : chunk_index ≡ pos index
    pub in_range : index < manifest.chunk_count
    pub from_assigned : (assigned ≡ "") ⊎ (peer ≡ assigned)
    pub listed : lookup index entries ≡ some entry
    pub sized : entry.size ≡ pos (length bytes)
    pub hashed : sha256 bytes ≡ entry.chunk_hash
    pub within : EndsWithin entry.offset (length bytes) manifest.blob_size

  Admits-pos :
      (manifest : ChunkManifest) (entries : Dict ℕ ChunkManifestEntry) (i : ℕ)
      (peer assigned : String) (bytes : Bytes) (entry : ChunkManifestEntry)
      → prevalidate_at sha256 manifest entries i peer assigned bytes ≡ ok entry
      → Admits manifest entries (pos i) peer assigned bytes entry
  unfolding prevalidate_at
  Admits-pos manifest entries i peer assigned bytes entry h =
      let fits : same_number (pos (length bytes)) entry.size ≡ true = ground arith in
      let ends : above (entry.offset +ℤ entry.size) manifest.blob_size ≡ false = ground arith in
      let sized = sym ((same_number_iff (pos (length bytes)) entry.size).0 fits) in
      record {
        index = i;
        nonneg = refl;
        in_range = ground arith;
        from_assigned = ground arith;
        listed = ground arith;
        sized = sized;
        hashed = ground arith;
        within =
            (above_iff entry.offset (length bytes) manifest.blob_size).0
              (subst (λ n. above (entry.offset +ℤ n) manifest.blob_size ≡ false) sized ends);
      }

  Admits-ok :
      (manifest : ChunkManifest) (entries : Dict ℕ ChunkManifestEntry) (chunk_index : ℤ)
      (peer assigned : String) (bytes : Bytes) (entry : ChunkManifestEntry)
      → Admits manifest entries chunk_index peer assigned bytes entry
      → prevalidate sha256 manifest entries chunk_index peer assigned bytes ≡ ok entry
  unfolding prevalidate
  Admits-ok manifest entries (negsuc n) peer assigned bytes entry a = ground arith
  Admits-ok manifest entries (pos i) peer assigned bytes entry a =
      let fits : same_number (pos (length bytes)) entry.size ≡ true =
        (same_number_iff (pos (length bytes)) entry.size).1 (sym a.sized) in
      let ends : above (entry.offset +ℤ entry.size) manifest.blob_size ≡ false =
        subst (λ n. above (entry.offset +ℤ n) manifest.blob_size ≡ false) (sym a.sized)
          ((above_iff entry.offset (length bytes) manifest.blob_size).1 a.within) in
      ground (arith, fits, ends)

  -- `prevalidate` returns an entry exactly when the chunk's index is not negative and below the
  -- manifest's count, the chunk comes from the assigned peer if one is assigned, the entry is the
  -- manifest's at that index, and the bytes have its size and its hash and, counted from its offset,
  -- end within the blob. The offset may be negative, so that the bytes may begin before the blob does.
  pub prevalidate_iff :
      (manifest : ChunkManifest) (entries : Dict ℕ ChunkManifestEntry) (chunk_index : ℤ)
      (peer assigned : String) (bytes : Bytes) (entry : ChunkManifestEntry)
      → (prevalidate sha256 manifest entries chunk_index peer assigned bytes ≡ ok entry)
        ↔ Admits manifest entries chunk_index peer assigned bytes entry
  unfolding prevalidate
  prevalidate_iff manifest entries (negsuc n) peer assigned bytes entry =
      (λ h. cc, Admits-ok manifest entries (negsuc n) peer assigned bytes entry)
  prevalidate_iff manifest entries (pos i) peer assigned bytes entry = (
    Admits-pos manifest entries i peer assigned bytes entry,
    Admits-ok manifest entries (pos i) peer assigned bytes entry,
  )

  -- A receiver that has the manifest of a blob admits every chunk of the blob's split, from the peer
  -- that it asked, under the chunk's own index.
  pub prevalidate-build :
      (board_id post_id thread_id : String) (blob_kind : BlobKind) (blob : Bytes) (chunk_size : ℕ)
      (version : ℕ) (merkle_root : Option String) (now : ℕ) (manifest : ChunkManifest)
      (entries : List ChunkManifestEntry) (chunks : List Chunk) (peer : String) (i offset size : ℕ)
      (chunk : Bytes)
      → 0 < chunk_size
      → build_chunk_manifest sha256 board_id post_id thread_id blob_kind blob chunk_size version
          merkle_root now
        ≡ ok (manifest, entries)
      → split_encrypted_blob blob chunk_size ≡ ok chunks
      → get_elem? chunks i ≡ some (offset, size, chunk)
      → (entry : ChunkManifestEntry) × (prevalidate sha256 manifest
            (index_entries entries)
            (pos i)
            peer
            peer
            chunk
          ≡ ok entry)
        × (entry.offset ≡ pos offset)
        × (entry.size ≡ pos size)
  prevalidate-build board_id post_id thread_id blob_kind blob chunk_size version merkle_root now
        manifest entries chunks peer i offset size chunk some_size built split get =
      let (_, made, split', t, _, _, _) = split_encrypted_blob-Tiles blob chunk_size some_size in
      let same_chunks : made ≡ chunks = cc in
      let tiles : Tiles blob chunk_size 0 chunks = subst (Tiles blob chunk_size 0) same_chunks t in
      let (at, len, end, in_range) =
        Tiles-get blob chunk_size 0 chunks tiles i offset size chunk get in
      let (entry, l, a, b, c) =
        lookup-index_entries sha256 (sha256 blob) i offset size chunk chunks get in
      let m =
        build_chunk_manifest-eq sha256 board_id post_id thread_id blob_kind blob chunk_size version
          merkle_root now manifest entries chunks split built in
      (
        entry,
        Admits-ok manifest (index_entries entries) (pos i) peer peer chunk entry (record {
          index = i;
          nonneg = refl;
          in_range = omega (arith, m.counted);
          from_assigned = inr refl;
          listed = rw m.listed l;
          sized = b ∙ ap pos (sym len);
          hashed = sym c;
          within = rw (a, m.sized) (omega arith);
        }),
        a,
        b,
      )
