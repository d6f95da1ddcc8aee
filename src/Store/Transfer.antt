-- ===== src/Store/Transfer.antt =====
-- The tables of chunked transfers (retiboard/db/database.py): manifests, sessions, the states of
-- requests, and what peers offer. `INSERT OR REPLACE` takes the row with the same key out and puts the
-- new one at the end; the ranges of an offer are stored as they are, not as JSON.
pub mod Saved
use retiboard.Base.{
  ℕ, ltb, ◌==◌, if◌then◌else◌, Bool, true, not, ◌&&◌, ◌||◌, String, same, List, [], ◌∷◌, ◌++◌, map,
  length, filter_by, any_by, Option, none, some, text_key,
}
use retiboard.Base.Sets.{contains}
use retiboard.Base.Sort.{sort_by}
use retiboard.Chunks.Models.{BlobKind, ChunkManifest, ChunkManifestEntry}

pub record ChunkFetchSession : Type 0 where
  pub session_id : String
  pub board_id : String
  pub blob_hash : String
  pub blob_kind : BlobKind
  pub state : String
  pub request_peer_lxmf_hash : String
  pub started_at : ℕ
  pub updated_at : ℕ
  pub expires_at : ℕ

pub record ChunkRequestStateRecord : Type 0 where
  pub session_id : String
  pub chunk_index : ℕ
  pub state : String
  pub assigned_peer_lxmf_hash : String
  pub request_id : String
  pub attempt_count : ℕ
  pub deadline_at : ℕ
  pub updated_at : ℕ

pub record PeerChunkAvailability : Type 0 where
  pub board_id : String
  pub peer_lxmf_hash : String
  pub blob_hash : String
  pub chunk_count : ℕ
  pub complete : Bool
  pub ranges : List (ℕ × ℕ)
  pub last_seen_at : ℕ

pub record TransferTables : Type 0 where
  pub chunk_manifests : List ChunkManifest
  pub chunk_manifest_entries : List ChunkManifestEntry
  pub chunk_fetch_sessions : List ChunkFetchSession
  pub chunk_request_states : List ChunkRequestStateRecord
  pub peer_chunk_availability : List PeerChunkAvailability

-- `INSERT OR REPLACE` of a row whose key the test recognises.
unfoldable pub replace_row {ℓ} : {A : Type ℓ} → (A → Bool) → A → List A → List A
replace_row same_key row table = filter_by (λ r. not (same_key r)) table ++ row ∷ []

-- `SELECT * … LIMIT 1`
unfoldable pub first_row {ℓ} : {A : Type ℓ} → (A → Bool) → List A → Option A
first_row test [] = none
first_row test (r ∷ table) = if test r then some r else first_row test table

-- `executemany("INSERT …")`; no result where a row with the key is there.
unfoldable pub insert_entries :
    List ChunkManifestEntry → List ChunkManifestEntry → Option (List ChunkManifestEntry)
insert_entries table [] = some table
insert_entries table (e ∷ entries) =
    let rest = insert_entries (table ++ e ∷ []) entries in
    if any_by (λ r. same r.blob_hash e.blob_hash && r.chunk_index == e.chunk_index) table
    then none
    else rest

module _ (db : TransferTables) where
  unfoldable pub save_chunk_manifest :
      ChunkManifest → List ChunkManifestEntry → Option TransferTables
  unfolding replace_row insert_entries
  save_chunk_manifest manifest entries =
      elim (insert_entries
        (filter_by (λ e. not (same e.blob_hash manifest.blob_hash)) db.chunk_manifest_entries)
        entries) [
          | none ↦ none
          | some table ↦ some (record db {
            chunk_manifests =
                replace_row (λ m. same m.blob_hash manifest.blob_hash) manifest db.chunk_manifests;
            chunk_manifest_entries = table;
          })
        ]

  unfoldable pub load_chunk_manifest : String → Option (ChunkManifest × List ChunkManifestEntry)
  unfolding first_row
  load_chunk_manifest blob_hash =
      elim (first_row (λ m. same m.blob_hash blob_hash) db.chunk_manifests) [
        | none ↦ none
        | some m ↦ some (
          m,
          sort_by (λ d e. ltb d.chunk_index e.chunk_index)
              (filter_by (λ e. same e.blob_hash blob_hash) db.chunk_manifest_entries),
        )
      ]

  unfoldable pub save_chunk_fetch_session : ChunkFetchSession → TransferTables
  unfolding replace_row
  save_chunk_fetch_session session = record db {
    chunk_fetch_sessions =
        replace_row (λ s. same s.session_id session.session_id) session db.chunk_fetch_sessions;
  }

  unfoldable pub load_chunk_fetch_session : String → Option ChunkFetchSession
  unfolding first_row
  load_chunk_fetch_session session_id =
      first_row (λ s. same s.session_id session_id) db.chunk_fetch_sessions

  -- `ORDER BY updated_at DESC, started_at DESC LIMIT 1`
  unfoldable pub load_latest_chunk_fetch_session_for_blob :
      (board_id blob_hash : String) → Option ChunkFetchSession
  unfolding first_row
  load_latest_chunk_fetch_session_for_blob board_id blob_hash =
      first_row (λ s. true)
        (sort_by
          (λ s t.
            ltb t.updated_at s.updated_at
            || (t.updated_at == s.updated_at && ltb t.started_at s.started_at))
          (filter_by (λ s. same s.board_id board_id && same s.blob_hash blob_hash)
            db.chunk_fetch_sessions))

  unfoldable pub save_chunk_request_state : ChunkRequestStateRecord → TransferTables
  unfolding replace_row
  save_chunk_request_state state = record db {
    chunk_request_states =
        replace_row (λ r. same r.session_id state.session_id && r.chunk_index == state.chunk_index)
          state db.chunk_request_states;
  }

  unfoldable pub load_chunk_request_states : String → List ChunkRequestStateRecord
  load_chunk_request_states session_id =
      sort_by (λ r s. ltb r.chunk_index s.chunk_index)
        (filter_by (λ r. same r.session_id session_id) db.chunk_request_states)

  unfoldable pub delete_chunk_request_state :
      (session_id : String) → (chunk_index : ℕ) → TransferTables
  delete_chunk_request_state session_id chunk_index = record db {
    chunk_request_states =
        filter_by (λ r. not (same r.session_id session_id && r.chunk_index == chunk_index))
          db.chunk_request_states;
  }

  unfoldable pub upsert_peer_chunk_availability : PeerChunkAvailability → TransferTables
  unfolding replace_row
  upsert_peer_chunk_availability offer = record db {
    peer_chunk_availability =
        replace_row
          (λ o. same o.peer_lxmf_hash offer.peer_lxmf_hash && same o.blob_hash offer.blob_hash)
          offer db.peer_chunk_availability;
  }

  -- `ORDER BY last_seen_at DESC`
  unfoldable pub load_peer_chunk_availability :
      (board_id blob_hash : String) → List PeerChunkAvailability
  load_peer_chunk_availability board_id blob_hash =
      sort_by (λ o p. ltb p.last_seen_at o.last_seen_at)
        (filter_by (λ o. same o.board_id board_id && same o.blob_hash blob_hash)
          db.peer_chunk_availability)

-- What `delete_chunk_transfer_state_for_blobs` counts.
pub record DeletedState : Type 0 where
  pub deleted_manifests : ℕ
  pub deleted_sessions : ℕ
  pub deleted_request_states : ℕ
  pub deleted_availability_rows : ℕ

module _ (db : TransferTables) (blob_hashes : List String) where
  abbrev pub of_blob : String → Bool
  of_blob h = contains h blob_hashes

  -- The sessions of the blobs.
  unfoldable pub session_ids : List String
  session_ids =
      map (λ s. s.session_id) (filter_by (λ s. of_blob s.blob_hash) db.chunk_fetch_sessions)

  unfoldable pub delete_chunk_transfer_state_for_blobs : TransferTables × DeletedState
  unfolding session_ids
  delete_chunk_transfer_state_for_blobs = (
    record {
      chunk_manifests = filter_by (λ m. not (of_blob m.blob_hash)) db.chunk_manifests;
      chunk_manifest_entries = filter_by (λ e. not (of_blob e.blob_hash)) db.chunk_manifest_entries;
      chunk_fetch_sessions = filter_by (λ s. not (of_blob s.blob_hash)) db.chunk_fetch_sessions;
      chunk_request_states =
          filter_by (λ r. not (contains r.session_id session_ids)) db.chunk_request_states;
      peer_chunk_availability =
          filter_by (λ o. not (of_blob o.blob_hash)) db.peer_chunk_availability;
    },
    record {
      deleted_manifests = length (filter_by (λ m. of_blob m.blob_hash) db.chunk_manifests);
      deleted_sessions = length session_ids;
      deleted_request_states =
          length (filter_by (λ r. contains r.session_id session_ids) db.chunk_request_states);
      deleted_availability_rows =
          length (filter_by (λ o. of_blob o.blob_hash) db.peer_chunk_availability);
    },
  )

  unfoldable pub delete_chunk_manifests_for_blobs : TransferTables × ℕ
  unfolding delete_chunk_transfer_state_for_blobs
  delete_chunk_manifests_for_blobs =
      let (tables, deleted) = delete_chunk_transfer_state_for_blobs in
      (tables, deleted.deleted_manifests)

  unfoldable pub delete_peer_chunk_availability_for_blobs : TransferTables × ℕ
  delete_peer_chunk_availability_for_blobs = (
    record db {
      peer_chunk_availability =
          filter_by (λ o. not (of_blob o.blob_hash)) db.peer_chunk_availability;
    },
    length (filter_by (λ o. of_blob o.blob_hash) db.peer_chunk_availability),
  )
