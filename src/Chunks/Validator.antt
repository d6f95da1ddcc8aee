-- ===== src/Chunks/Validator.antt =====
-- retiboard/chunks/validator.py: a received chunk is admitted only if the manifest has a place for
-- it, it comes from the peer that was asked, and its bytes have the size and the hash of that place.
pub mod Exact
use retiboard.Base.{
  nat_key, ℕ, leb, not, ◌&&◌, Bool, true, false, String, Option, none, some, length, same, truthy,
}
use retiboard.Base.Int.{ℤ, pos, negsuc, same_number, ◌+ℤ◌, above}
use retiboard.Base.Dict.{Dict, lookup}
use retiboard.Chunks.Models.{
  ChunkManifest, ChunkManifestEntry, Bytes, value_error, Result, ok, raise, ◌>>=◌,
}

infixl 5 ◌>>◌
abbrev ◌>>◌ {ℓ} : {B : Type ℓ} → Result (Unit {0}) → Result B → Result B
m >> k = m >>= λ _. k

-- `if refused: raise ChunkValidationError(...)`
abbrev refuse_if : Bool → Result (Unit {0})
refuse_if true = raise value_error
refuse_if false = ok tt

abbrev found {ℓ} : {A : Type ℓ} → Option A → Result A
found none = raise value_error
found (some a) = ok a

module _ (sha256 : Bytes → String) where
  -- The checks on an index that is not negative.
  unfoldable pub prevalidate_at :
      ChunkManifest
      → Dict ℕ ChunkManifestEntry
      → ℕ
      → (peer assigned : String) → Bytes
      → Result ChunkManifestEntry
  prevalidate_at manifest entries_by_index chunk_index peer assigned bytes = do
    refuse_if (leb manifest.chunk_count chunk_index)
    refuse_if (truthy assigned && not (same peer assigned))
    entry ← found (lookup chunk_index entries_by_index)
    refuse_if (not (same_number (pos (length bytes)) entry.size))
    refuse_if (not (same (sha256 bytes) entry.chunk_hash))
    refuse_if (above (entry.offset +ℤ entry.size) manifest.blob_size)
    ok entry

  unfoldable pub prevalidate :
      ChunkManifest
      → Dict ℕ ChunkManifestEntry
      → ℤ
      → (peer assigned : String) → Bytes
      → Result ChunkManifestEntry
  unfolding prevalidate_at
  prevalidate manifest entries_by_index (negsuc n) peer assigned bytes = raise value_error
  prevalidate manifest entries_by_index (pos i) peer assigned bytes =
      prevalidate_at manifest entries_by_index i peer assigned bytes
