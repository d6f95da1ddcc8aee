-- ===== src/Tests/Blobs.antt =====
-- A blob of three bytes in chunks of two.
use retiboard.Base.{
  nat_key, ◌+◌, ◌*◌, ◌≤◌, ◌<◌, ◌≡◌, ◌↔◌, refl, arith, if◌then◌else◌, String, same, text_discrete,
  ℕ_discrete, List, [], ◌∷◌, length, some, none,
}
use retiboard.Base.Int.{pos}
use retiboard.Base.Dict.{insert, lookup}
use retiboard.Base.Sets.{add, contains}
use retiboard.Chunks.Models.{text, ChunkManifest, ChunkManifestEntry, Bytes, ok, raise, value_error}
use retiboard.Chunks.Chunker.{
  Chunk, split_loop, split_encrypted_blob, entries_from, build_chunk_manifest, index_from,
  index_entries,
}
use retiboard.Chunks.Chunker.Split.{Tiles, join, split_encrypted_blob-Tiles}
use retiboard.Chunks.Validator.{prevalidate_at, prevalidate}
use retiboard.Chunks.Validator.Exact.{Admits, prevalidate_iff, prevalidate-build}
use retiboard.Chunks.Reassembly.{
  Files, ReassemblyBuffer, init, reserve, write_at, write_verified_chunk, is_complete, read_blocks,
  replace_file, finalize,
}
use retiboard.Chunks.Reassembly.Invariant.{Writes, start, write}
use retiboard.Chunks.Reassembly.Assembly.{fresh, replaced, finalize_lem, assembly_complete}

abbrev digest : Bytes → String
digest [] = "none"
digest (x ∷ []) = "other"
digest (x ∷ y ∷ []) = "two"
digest (x ∷ y ∷ z ∷ xs) = "one"

abbrev blob : Bytes
blob = 1 ∷ 2 ∷ 3 ∷ []

abbrev chunks : List Chunk
chunks = (0, 2, 1 ∷ 2 ∷ []) ∷ (2, 1, 3 ∷ []) ∷ []

run : Unit {0}
unfolding split_loop split_encrypted_blob entries_from build_chunk_manifest index_from index_entries
    insert lookup prevalidate_at prevalidate init reserve write_at write_verified_chunk is_complete
    read_blocks replace_file finalize add contains text_discrete ℕ_discrete
run = tt

split : split_encrypted_blob blob 2 ≡ ok chunks
unfolding run
split = refl

split_encrypted_blob-Tiles_example :
    (split_encrypted_blob blob 0 ≡ raise value_error)
    × (cs : List Chunk) × (split_encrypted_blob blob 2 ≡ ok cs)
    × Tiles blob 2 0 cs
    × (join cs ≡ blob)
    × (length blob ≤ length cs * 2)
    × (length cs * 2 < length blob + 2)
split_encrypted_blob-Tiles_example = split_encrypted_blob-Tiles blob 2 (omega arith)

abbrev entries : List ChunkManifestEntry
entries = entries_from digest "one" 0 chunks

abbrev manifest : ChunkManifest
manifest = record {
  manifest_version = 1;
  board_id = "b";
  post_id = "p";
  thread_id = "t";
  blob_kind = text;
  blob_hash = "one";
  blob_size = pos 3;
  chunk_size = 2;
  chunk_count = 2;
  merkle_root = none;
  created_at = 7;
}

built : build_chunk_manifest digest "b" "p" "t" text blob 2 1 none 7 ≡ ok (manifest, entries)
unfolding run
built = refl

prevalidate-build_example :
    (entry : ChunkManifestEntry) × (prevalidate digest manifest
        (index_entries entries)
        (pos 1)
        "peer"
        "peer"
        (3 ∷ [])
      ≡ ok entry)
    × (entry.offset ≡ pos 2)
    × (entry.size ≡ pos 1)
prevalidate-build_example =
    prevalidate-build digest "b" "p" "t" text blob 2 1 none 7 manifest entries chunks "peer" 1 2 1
      (3 ∷ []) (omega arith) built split refl

abbrev second : ChunkManifestEntry
second = record {
  blob_hash = "one";
  chunk_index = 1;
  offset = pos 2;
  size = pos 1;
  chunk_hash = "other";
}

prevalidate_iff_example :
    (prevalidate digest manifest (index_entries entries) (pos 1) "peer" "peer" (3 ∷ []) ≡ ok second)
    ↔ Admits digest manifest (index_entries entries) (pos 1) "peer" "peer" (3 ∷ []) second
prevalidate_iff_example =
    prevalidate_iff digest manifest (index_entries entries) (pos 1) "peer" "peer" (3 ∷ []) second

abbrev files : Files
files = record { temp = none; final = none }

abbrev one_written : ReassemblyBuffer
one_written = record {
  blob_size = 3;
  chunk_count = 2;
  present = 1 ∷ [];
  files = record { temp = some (0 ∷ 0 ∷ 3 ∷ []); final = none };
}

abbrev all_written : ReassemblyBuffer
all_written = record {
  blob_size = 3;
  chunk_count = 2;
  present = 0 ∷ 1 ∷ [];
  files = record { temp = some blob; final = none };
}

-- The second chunk is written first.
written : Writes chunks (fresh files blob chunks) all_written
unfolding run
written =
    write 0 0 2 (1 ∷ 2 ∷ []) (write {d = one_written} 1 2 1 (3 ∷ []) start refl refl) refl refl

assembly_complete_example :
    (all_written.temp ≡ some blob)
    × (finalize digest (λ f. f) all_written (digest blob)
        ≡ ok (record all_written { files = record { temp = none; final = some blob } }))
unfolding is_complete
assembly_complete_example =
    assembly_complete digest blob 2 files chunks all_written (omega arith) split written refl

finalize_lem_example : finalize digest (λ f. f) all_written "wrong" ≡ (
    if same (digest blob) "wrong"
    then replaced digest all_written all_written.files
    else raise value_error)
finalize_lem_example = finalize_lem digest (λ f. f) all_written "wrong" blob refl
