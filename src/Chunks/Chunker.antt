-- ===== src/Chunks/Chunker.antt =====
-- retiboard/chunks/chunker.py: an encrypted blob is split into chunks of one size, the last one
-- shorter, and described by a manifest with an entry for each chunk.
pub mod Split
pub mod Manifest
use retiboard.Base.{
  nat_key, ℕ, zero, suc, ◌+◌, ltb, leb, if◌then◌else◌, String, Option, List, [], ◌∷◌, length,
}
use retiboard.Base.Int.{pos}
use retiboard.Base.Dict.{Dict, insert}
use retiboard.Chunks.Models.{
  BlobKind, ChunkManifest, ChunkManifestEntry, Bytes, value_error, out_of_fuel, Result, ok, raise,
  ◌>>=◌,
}
use retiboard.Chunks.Bytes.{slice}

-- (offset, size, chunk_bytes)
abbrev pub Chunk : Type 0
Chunk = ℕ × ℕ × Bytes

-- The `while` loop of `split_encrypted_blob` from an offset on, each round taking one unit of fuel.
unfoldable pub split_loop : ℕ → Bytes → ℕ → ℕ → Result (List Chunk)
split_loop zero blob chunk_size offset = raise out_of_fuel
split_loop (suc fuel) blob chunk_size offset =
    let part = slice blob offset (offset + chunk_size) in
    let rest = split_loop fuel blob chunk_size (offset + length part) in
    if ltb offset (length blob)
    then (do chunks ← rest; ok ((offset, length part, part) ∷ chunks))
    else ok []

-- A blob of n bytes takes at most n rounds and the last test.
unfoldable pub split_encrypted_blob : Bytes → ℕ → Result (List Chunk)
unfolding split_loop
split_encrypted_blob blob chunk_size =
    if leb chunk_size 0 then raise value_error else split_loop (suc (length blob)) blob chunk_size 0

module _ (sha256 : Bytes → String) where
  -- The comprehension over `enumerate(chunks)`, from an index on.
  unfoldable pub entries_from : String → ℕ → List Chunk → List ChunkManifestEntry
  entries_from blob_hash index [] = []
  entries_from blob_hash index ((offset, size, chunk) ∷ chunks) =
      record {
        blob_hash = blob_hash;
        chunk_index = index;
        offset = pos offset;
        size = pos size;
        chunk_hash = sha256 chunk;
      }
      ∷ entries_from blob_hash (suc index) chunks

  -- The identifiers, the kind, the version, the root and the time are passed through.
  unfoldable pub build_chunk_manifest :
      (board_id post_id thread_id : String) (blob_kind : BlobKind) (blob : Bytes) (chunk_size : ℕ)
      → (manifest_version : ℕ) (merkle_root : Option String) (now : ℕ)
      → Result (ChunkManifest × List ChunkManifestEntry)
  unfolding entries_from
  build_chunk_manifest board_id post_id thread_id blob_kind blob chunk_size manifest_version
        merkle_root now =
      do
        chunks ← split_encrypted_blob blob chunk_size
        let entries = entries_from (sha256 blob) 0 chunks
        ok (
          record {
            manifest_version = manifest_version;
            board_id = board_id;
            post_id = post_id;
            thread_id = thread_id;
            blob_kind = blob_kind;
            blob_hash = sha256 blob;
            blob_size = pos (length blob);
            chunk_size = chunk_size;
            chunk_count = length entries;
            merkle_root = merkle_root;
            created_at = now;
          },
          entries,
        )

-- `{e.chunk_index: e for e in entries}`, added to a dictionary.
unfoldable pub index_from :
    List ChunkManifestEntry → Dict ℕ ChunkManifestEntry → Dict ℕ ChunkManifestEntry
index_from [] index = index
index_from (entry ∷ entries) index = index_from entries (insert entry.chunk_index entry index)

unfoldable pub index_entries : List ChunkManifestEntry → Dict ℕ ChunkManifestEntry
unfolding index_from
index_entries entries = index_from entries []
