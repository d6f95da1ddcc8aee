-- ===== src/Chunks/Chunker/Manifest.antt =====
-- The entries of a built manifest, and the dictionary of them by index.
use retiboard.Base.{
  nat_key, ℕ, zero, suc, ◌+◌, ◌<◌, ◌≡◌, refl, ap, ◌∙◌, arith, String, Option, some, List, [], ◌∷◌,
  length,
}
use retiboard.Base.Int.{pos}
use retiboard.Base.Dict.{Dict, lookup, insert, lookup-insert_self, lookup-insert_ne}
use retiboard.Chunks.Models.{BlobKind, ChunkManifest, ChunkManifestEntry, Bytes, ok}
use retiboard.Chunks.Bytes.{get_elem?}
use retiboard.Chunks.Chunker.{
  Chunk, split_encrypted_blob, entries_from, build_chunk_manifest, index_from, index_entries,
}

module _ (sha256 : Bytes → String) where
  abbrev entry_of : String → ℕ → Chunk → ChunkManifestEntry
  entry_of blob_hash index (offset, size, chunk) = record {
    blob_hash = blob_hash;
    chunk_index = index;
    offset = pos offset;
    size = pos size;
    chunk_hash = sha256 chunk;
  }

  index_from_below :
      (blob_hash : String) (first k : ℕ) (chunks : List Chunk) (index : Dict ℕ ChunkManifestEntry)
      → k < first
      → lookup k (index_from (entries_from sha256 blob_hash first chunks) index) ≡ lookup k index
  unfolding entries_from index_from
  index_from_below blob_hash first k [] index lt = refl
  index_from_below blob_hash first k ((o, n, p) ∷ chunks) index lt =
      index_from_below blob_hash (suc first) k chunks _ (omega arith)
      ∙ lookup-insert_ne first k _ index (omega arith)

  lookup-index_from :
      (blob_hash : String) (first i offset size : ℕ) (chunk : Bytes) (chunks : List Chunk)
      (index : Dict ℕ ChunkManifestEntry)
      → get_elem? chunks i ≡ some (offset, size, chunk)
      → (entry : ChunkManifestEntry) × (lookup
            (first + i)
            (index_from (entries_from sha256 blob_hash first chunks) index)
          ≡ some entry)
        × (entry.offset ≡ pos offset)
        × (entry.size ≡ pos size)
        × (entry.chunk_hash ≡ sha256 chunk)
  unfolding entries_from index_from
  lookup-index_from blob_hash first i offset size chunk [] index e = cc
  lookup-index_from blob_hash first zero offset size chunk ((o, n, p) ∷ chunks) index e =
      let entry = entry_of blob_hash first (o, n, p) in
      let here : first + 0 ≡ first = omega arith in
      (
        entry,
        rw here (
            index_from_below blob_hash (suc first) first chunks _ (omega arith)
            ∙ lookup-insert_self first entry index),
        ground arith,
        ground arith,
        ap sha256 (ground arith),
      )
  lookup-index_from blob_hash first (suc i) offset size chunk ((o, n, p) ∷ chunks) index e =
      let (entry, l, a, b, c) =
        lookup-index_from blob_hash (suc first) i offset size chunk chunks
          (insert first (entry_of blob_hash first (o, n, p)) index) e in
      let at : first + suc i ≡ suc first + i = omega arith in (entry, rw at l, a, b, c)

  -- The entry of the i-th chunk stands under the i-th index.
  pub lookup-index_entries :
      (blob_hash : String) (i offset size : ℕ) (chunk : Bytes) (chunks : List Chunk)
      → get_elem? chunks i ≡ some (offset, size, chunk)
      → (entry : ChunkManifestEntry) × (lookup i
            (index_entries (entries_from sha256 blob_hash 0 chunks))
          ≡ some entry)
        × (entry.offset ≡ pos offset)
        × (entry.size ≡ pos size)
        × (entry.chunk_hash ≡ sha256 chunk)
  unfolding index_entries
  lookup-index_entries blob_hash i offset size chunk chunks e =
      let (entry, l, a, b, c) = lookup-index_from blob_hash 0 i offset size chunk chunks [] e in
      let at : 0 + i ≡ i = omega arith in (entry, rw at at l, a, b, c)

  length-entries_from :
      (blob_hash : String) (first : ℕ) (chunks : List Chunk)
      → length (entries_from sha256 blob_hash first chunks) ≡ length chunks
  unfolding entries_from
  length-entries_from blob_hash first [] = refl
  length-entries_from blob_hash first (c ∷ chunks) =
      omega (arith, length-entries_from blob_hash (suc first) chunks)

  pub record Describes (blob : Bytes) (chunks : List Chunk) (manifest : ChunkManifest)
      (entries : List ChunkManifestEntry) : Type 0 where
    pub listed : entries ≡ entries_from sha256 (sha256 blob) 0 chunks
    pub counted : manifest.chunk_count ≡ length chunks
    pub sized : manifest.blob_size ≡ pos (length blob)
    pub hashed : manifest.blob_hash ≡ sha256 blob

  pub build_chunk_manifest-eq :
      (board_id post_id thread_id : String) (blob_kind : BlobKind) (blob : Bytes) (chunk_size : ℕ)
      (version : ℕ) (merkle_root : Option String) (now : ℕ) (manifest : ChunkManifest)
      (entries : List ChunkManifestEntry) (chunks : List Chunk)
      → split_encrypted_blob blob chunk_size ≡ ok chunks
      → build_chunk_manifest sha256 board_id post_id thread_id blob_kind blob chunk_size version
          merkle_root now
        ≡ ok (manifest, entries)
      → Describes blob chunks manifest entries
  unfolding build_chunk_manifest
  build_chunk_manifest-eq board_id post_id thread_id blob_kind blob chunk_size version merkle_root
        now manifest entries chunks split built =
      record {
        listed = ground arith;
        counted = ground (arith, length-entries_from (sha256 blob) 0 chunks);
        sized = ground arith;
        hashed = ground arith;
      }
