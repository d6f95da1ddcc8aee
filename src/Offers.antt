-- ===== src/Offers.antt =====
-- retiboard/sync/payload_fetch.py: how a node tells which chunks of a blob it has, and what it makes of
-- the manifests and offers of others. The sessions themselves are I/O around the parts of Chunks,
-- Swarm and Scheduler.
pub mod Told
use retiboard.Base.{
  ℕ, ◌+◌, ◌-◌, ◌*◌, ltb, leb, ◌==◌, if◌then◌else◌, Bool, true, false, not, ◌&&◌, ◌||◌, String, same,
  List, [], ◌∷◌, map, length, filter_by, all_by, any_by, Option, none, some, nat_key, text_key,
}
use retiboard.Base.Int.{ℤ, pos, negsuc, same_number}
use retiboard.Base.Dict.{Dict, lookup}
use retiboard.Base.Sets.{contains, add}
use retiboard.Base.Sort.{sort_by}
use retiboard.Chunks.Models.{BlobKind, text, attachments, ChunkManifest, ChunkManifestEntry}
use retiboard.Chunks.Chunker.{index_entries}

-- `{int(idx) for idx in indexes if int(idx) >= 0}`
unfoldable pub index_set : List ℤ → List ℕ
index_set [] = []
index_set (negsuc n ∷ indexes) = index_set indexes
index_set (pos n ∷ indexes) = add n (index_set indexes)

-- The loop over the ordered indexes, with the range that is open.
unfoldable pub ranges_from : (start prev : ℕ) → List ℕ → List (ℕ × ℕ)
ranges_from start prev [] = (start, prev) ∷ []
ranges_from start prev (idx ∷ ordered) =
    let longer = ranges_from start idx ordered in
    let next = (start, prev) ∷ ranges_from idx idx ordered in
    if idx == prev + 1 then longer else next

unfoldable pub ranges_of : List ℕ → List (ℕ × ℕ)
unfolding ranges_from
ranges_of [] = []
ranges_of (start ∷ ordered) = ranges_from start start ordered

unfoldable pub compress_chunk_indexes : List ℤ → List (ℕ × ℕ)
unfolding ranges_of index_set
compress_chunk_indexes indexes = ranges_of (sort_by ltb (index_set indexes))

unfoldable pub full_chunk_ranges : ℕ → List (ℕ × ℕ)
full_chunk_ranges chunk_count = if ltb 0 chunk_count then (0, chunk_count - 1) ∷ [] else []

abbrev pub chunk_size_default : ℕ
chunk_size_default = 262144

unfoldable pub choose_chunk_size : (blob_size : ℕ) → ℕ
choose_chunk_size blob_size =
    if blob_size == 0
    then chunk_size_default
    else if ltb blob_size (64 * 1024)
    then 32 * 1024
    else if ltb blob_size (512 * 1024)
    then 64 * 1024
    else chunk_size_default

abbrev same_kind : BlobKind → BlobKind → Bool
same_kind text text = true
same_kind attachments attachments = true
same_kind _ _ = false

-- An entry agrees with the one that is known for its index.
unfoldable pub entry_matches : Dict ℕ ChunkManifestEntry → ChunkManifestEntry → Bool
entry_matches existing entry = elim (lookup entry.chunk_index existing) [
  | none ↦ false
  | some current ↦
      same_number current.offset entry.offset
      && same_number current.size entry.size
      && same current.chunk_hash entry.chunk_hash
]

unfoldable pub manifest_entries_match :
    ChunkManifest → List ChunkManifestEntry → ChunkManifest → List ChunkManifestEntry → Bool
unfolding entry_matches index_entries
manifest_entries_match m existing n incoming =
    same m.blob_hash n.blob_hash
    && same_number m.blob_size n.blob_size
    && m.chunk_size == n.chunk_size
    && m.chunk_count == n.chunk_count
    && same_kind m.blob_kind n.blob_kind
    && length existing == length incoming
    && all_by (entry_matches (index_entries existing)) incoming

-- What a peer has told of a blob.
pub record Availability : Type 0 where
  pub complete : Bool
  pub ranges : List (ℕ × ℕ)

unfoldable pub peer_has_positive_chunk_availability : Option Availability → Bool
peer_has_positive_chunk_availability none = false
peer_has_positive_chunk_availability (some row) =
    row.complete || any_by (λ r. leb r.0 r.1) row.ranges

abbrev ranges_or_none : Option Availability → List (ℕ × ℕ)
ranges_or_none none = []
ranges_or_none (some row) = row.ranges

-- The peers to ask, with the ranges that they have told.
unfoldable pub select_swarm_peers :
    (candidates : List String)
    → Dict String Availability
    → (prefer_known_available : Bool) → List String × Dict String (List (ℕ × ℕ))
unfolding peer_has_positive_chunk_availability
select_swarm_peers candidates rows prefer_known_available =
    let peer_ranges =
      map (λ (e : String × Availability). (e.0, e.1.ranges))
        (filter_by (λ e. contains e.0 candidates) rows) in
    let eligible =
      filter_by (λ p. peer_has_positive_chunk_availability (lookup p rows)) candidates in
    if not prefer_known_available || length eligible == 0
    then (candidates, peer_ranges)
    else (eligible, map (λ p. (p, ranges_or_none (lookup p rows))) eligible)
