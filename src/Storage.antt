-- ===== src/Storage.antt =====
-- retiboard/storage/payloads.py: the files of one board. A payload file is its bytes under the hash
-- that names it, a chunk cache is only there or not. Writing to a temporary file and the move to its
-- place are one step, and the operating system's errors are not modelled. SHA-256 is a parameter.
pub mod Bulk
use retiboard.Base.{
  ℕ, ◌+◌, if◌then◌else◌, Bool, true, false, String, same, List, [], ◌∷◌, length, Option, none, some,
  is_some, text_key,
}
use retiboard.Base.Dict.{Dict, lookup, insert, erase}
use retiboard.Base.Sets.{contains, discard}
use retiboard.Chunks.Models.{Bytes, value_error, Result, ok, raise}

pub record BoardFiles : Type 0 where
  pub payloads : Dict String Bytes
  pub chunk_cache : List String

unfoldable pub write_payload :
    (sha256 : Bytes → String)
    → BoardFiles
    → (content_hash : String) → Bytes
    → (verify_hash : Bool) → Result BoardFiles
write_payload sha256 files content_hash bytes verify_hash =
    let written : Result BoardFiles =
      ok (record files { payloads = insert content_hash bytes files.payloads }) in
    if verify_hash
    then (if same (sha256 bytes) content_hash then written else raise value_error)
    else written

module _ (files : BoardFiles) where
  unfoldable pub read_payload : String → Option Bytes
  read_payload content_hash = lookup content_hash files.payloads

  unfoldable pub payload_exists : String → Bool
  payload_exists content_hash = is_some (lookup content_hash files.payloads)

  unfoldable pub get_payload_size : String → Option ℕ
  get_payload_size content_hash = elim (lookup content_hash files.payloads) [
    | none ↦ none
    | some bytes ↦ some (length bytes)
  ]

  unfoldable pub delete_payload : String → BoardFiles × Bool
  unfolding payload_exists
  delete_payload content_hash =
      if payload_exists content_hash
      then (record files { payloads = erase content_hash files.payloads }, true)
      else (files, false)

  unfoldable pub delete_chunk_cache : String → BoardFiles × Bool
  delete_chunk_cache blob_hash =
      if contains blob_hash files.chunk_cache
      then (record files { chunk_cache = discard blob_hash files.chunk_cache }, true)
      else (files, false)

-- The loop of a bulk deletion, with the number of files deleted so far.
unfoldable pub delete_each :
    (BoardFiles → String → BoardFiles × Bool) → BoardFiles → List String → ℕ → BoardFiles × ℕ
delete_each delete files [] deleted = (files, deleted)
delete_each delete files (h ∷ hashes) deleted =
    let (files', done) = delete files h in
    delete_each delete files' hashes (if done then deleted + 1 else deleted)

unfoldable pub delete_payloads_bulk : BoardFiles → List String → BoardFiles × ℕ
unfolding delete_each delete_payload
delete_payloads_bulk files content_hashes = delete_each delete_payload files content_hashes 0

unfoldable pub delete_chunk_cache_bulk : BoardFiles → List String → BoardFiles × ℕ
unfolding delete_each delete_chunk_cache
delete_chunk_cache_bulk files blob_hashes = delete_each delete_chunk_cache files blob_hashes 0
