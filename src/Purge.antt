-- ===== src/Purge.antt =====
-- retiboard/moderation/purge.py: the deletion of posts and threads by hand, with a rule that keeps them
-- out, and the log of bans that can be lifted again (retiboard/db/database.py). The sessions of the
-- process that fetch a blob are the list of their blobs; what their end does to the fetch scheduler is
-- in Scheduler.
pub mod Thread
pub mod Bans
pub mod Identity
use retiboard.Base.{
  ℕ, ◌+◌, ltb, if◌then◌else◌, Bool, not, String, same, truthy, List, [], ◌∷◌, ◌++◌, map, length,
  filter_by, Option, none, some, text_key,
}
use retiboard.Base.Sets.{discard}
use retiboard.Store.Models.{PostMetadata, is_op}
use retiboard.Store.Lifecycle.{get_post, recompute_thread_lifecycle}
use retiboard.Store.Transfer.{DeletedState, delete_chunk_transfer_state_for_blobs}
use retiboard.Moderation.Controls.{mark_post_purged, mark_thread_purged}
use retiboard.Storage.{delete_payloads_bulk, delete_chunk_cache_bulk}
use retiboard.Pruning.Board.{BoardState}

pub record ModerationAction : Type 0 where
  pub id : ℕ
  pub action_kind : String
  pub target_id : String
  pub created_at : ℕ
  pub reason : String
  pub is_active : Bool
  pub reversed_at : Option ℕ

pub record ActionTarget : Type 0 where
  pub action_id : ℕ
  pub target_scope : String
  pub target_id : String

pub record PurgeState : Type 0 where
  pub board : BoardState
  pub actions : List ModerationAction
  pub targets : List ActionTarget
  pub pending_sessions : List String

pub record PurgeResult : Type 0 where
  pub deleted_posts : ℕ
  pub deleted_payload_blobs : ℕ
  pub deleted_chunk_caches : ℕ
  pub deleted_state : DeletedState
  pub tombstoned_scope : String
  pub tombstoned_target_id : String
  pub purged_post_ids : List String

abbrev no_state : DeletedState
no_state = record {
  deleted_manifests = 0;
  deleted_sessions = 0;
  deleted_request_states = 0;
  deleted_availability_rows = 0;
}

abbrev pub empty_result : (scope target_id : String) → PurgeResult
empty_result scope target_id = record {
  deleted_posts = 0;
  deleted_payload_blobs = 0;
  deleted_chunk_caches = 0;
  deleted_state = no_state;
  tombstoned_scope = scope;
  tombstoned_target_id = target_id;
  purged_post_ids = [];
}

-- `PurgeResult.__add__`
unfoldable pub combined : PurgeResult → PurgeResult → PurgeResult
combined a b =
    let d = a.deleted_state in
    let e = b.deleted_state in
    record {
      deleted_posts = a.deleted_posts + b.deleted_posts;
      deleted_payload_blobs = a.deleted_payload_blobs + b.deleted_payload_blobs;
      deleted_chunk_caches = a.deleted_chunk_caches + b.deleted_chunk_caches;
      deleted_state = record {
        deleted_manifests = d.deleted_manifests + e.deleted_manifests;
        deleted_sessions = d.deleted_sessions + e.deleted_sessions;
        deleted_request_states = d.deleted_request_states + e.deleted_request_states;
        deleted_availability_rows = d.deleted_availability_rows + e.deleted_availability_rows;
      };
      tombstoned_scope = a.tombstoned_scope;
      tombstoned_target_id = a.tombstoned_target_id;
      purged_post_ids = a.purged_post_ids ++ b.purged_post_ids;
    }

-- The blobs of the rows, those of each row together, without the empty hash.
unfoldable pub row_blobs : List PostMetadata → List String
row_blobs [] = []
row_blobs (p ∷ rows) =
    filter_by truthy (p.content_hash ∷ p.attachment_content_hash ∷ []) ++ row_blobs rows

unfoldable pub get_post_blob_references : List PostMetadata → String → List String
unfolding row_blobs
get_post_blob_references posts post_id = elim (get_post post_id posts) [
  | none ↦ []
  | some p ↦ row_blobs (p ∷ [])
]

unfoldable pub get_thread_blob_references : List PostMetadata → String → List String
unfolding row_blobs
get_thread_blob_references posts thread_id =
    row_blobs (filter_by (λ p. same p.thread_id thread_id) posts)

-- The rows that are left, and how many went.
unfoldable pub delete_post_metadata : List PostMetadata → String → List PostMetadata × ℕ
delete_post_metadata posts post_id = (
  filter_by (λ p. not (same p.post_id post_id)) posts,
  length (filter_by (λ p. same p.post_id post_id) posts),
)

unfoldable pub delete_thread_metadata : List PostMetadata → String → List PostMetadata × ℕ
delete_thread_metadata posts thread_id = (
  filter_by (λ p. not (same p.thread_id thread_id)) posts,
  length (filter_by (λ p. same p.thread_id thread_id) posts),
)

-- `cancel_pending_chunk_session` for each blob.
unfoldable pub cancel_sessions : List String → List String → List String
cancel_sessions pending [] = pending
cancel_sessions pending (h ∷ hashes) = cancel_sessions (discard h pending) hashes

module _ (now : ℕ) (reason : String) where
  -- What a purge does to the blobs, once the rows are gone.
  unfoldable pub purge_blobs : PurgeState → List String → PurgeState × (ℕ × ℕ × DeletedState)
  unfolding cancel_sessions
  purge_blobs s hashes =
      let (files, deleted_payload_blobs) = delete_payloads_bulk s.board.files hashes in
      let (cleared, deleted_chunk_caches) = delete_chunk_cache_bulk files hashes in
      let (transfers, chunk_state) =
        delete_chunk_transfer_state_for_blobs s.board.transfers hashes in
      (
        record s {
          board = record s.board { files = cleared; transfers = transfers };
          pending_sessions = cancel_sessions s.pending_sessions hashes;
        },
        (deleted_payload_blobs, deleted_chunk_caches, chunk_state),
      )

  unfoldable pub purge_thread : PurgeState → (thread_id : String) → PurgeState × PurgeResult
  unfolding get_thread_blob_references delete_thread_metadata purge_blobs
  purge_thread s thread_id =
      let purged_ids =
        map (λ p. p.post_id) (filter_by (λ p. same p.thread_id thread_id) s.board.posts) in
      let blob_hashes = get_thread_blob_references s.board.posts thread_id in
      let (posts, deleted_posts) = delete_thread_metadata s.board.posts thread_id in
      let (s', counts) =
        purge_blobs (record s { board = record s.board { posts = posts } }) blob_hashes in
      (
        record s' {
          board = record s'.board {
            content_control = mark_thread_purged now s'.board.content_control thread_id reason;
          };
        },
        record {
          deleted_posts = deleted_posts;
          deleted_payload_blobs = counts.0;
          deleted_chunk_caches = counts.1;
          deleted_state = counts.2;
          tombstoned_scope = "thread";
          tombstoned_target_id = thread_id;
          purged_post_ids = purged_ids;
        },
      )

  -- The purge of a post that opens no thread, with the thread that it was in, if it was there.
  unfoldable pub purge_reply :
      PurgeState → (post_id : String) → Option PostMetadata → PurgeState × PurgeResult
  unfolding get_post_blob_references delete_post_metadata purge_blobs
  purge_reply s post_id post_row =
      let blob_hashes = get_post_blob_references s.board.posts post_id in
      let (posts, deleted_posts) = delete_post_metadata s.board.posts post_id in
      let (s', counts) =
        purge_blobs (record s { board = record s.board { posts = posts } }) blob_hashes in
      let recomputed : List PostMetadata = elim post_row [
        | none ↦ s'.board.posts
        | some p ↦ recompute_thread_lifecycle s'.board.board_config p.thread_id s'.board.posts
      ] in
      (
        record s' {
          board = record s'.board {
            posts = recomputed;
            content_control = mark_post_purged now s'.board.content_control post_id reason;
          };
        },
        record {
          deleted_posts = deleted_posts;
          deleted_payload_blobs = counts.0;
          deleted_chunk_caches = counts.1;
          deleted_state = counts.2;
          tombstoned_scope = "post";
          tombstoned_target_id = post_id;
          purged_post_ids = if ltb 0 deleted_posts then post_id ∷ [] else [];
        },
      )

  -- The post that opens a thread takes the thread with it.
  unfoldable pub purge_post : PurgeState → (post_id : String) → PurgeState × PurgeResult
  unfolding purge_thread purge_reply
  purge_post s post_id = elim (get_post post_id s.board.posts) [
    | none ↦ purge_reply s post_id none
    | some p ↦ if is_op p then purge_thread s p.thread_id else purge_reply s post_id (some p)
  ]
