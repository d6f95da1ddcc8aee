-- ===== src/Pruning/Board.antt =====
-- `prune_board`, and the state of a board that it changes.
pub mod Blobs
pub mod Pruned
pub mod Files
use retiboard.Base.{ℕ, ◌+◌, String, List, [], ◌∷◌, length, Option, none, some}
use retiboard.Store.Models.{Board, PostMetadata}
use retiboard.Store.Threads.{mark_expired_threads, delete_abandoned_threads, enforce_thread_cap}
use retiboard.Store.Transfer.{TransferTables, delete_chunk_manifests_for_blobs}
use retiboard.Moderation.Controls.{Control}
use retiboard.Storage.{BoardFiles, delete_payloads_bulk, delete_chunk_cache_bulk}

pub record BoardState : Type 0 where
  pub board_config : Option Board
  pub posts : List PostMetadata
  pub content_control : List Control
  pub transfers : TransferTables
  pub files : BoardFiles

pub record PruneResult : Type 0 where
  pub boards_scanned : ℕ
  pub threads_abandoned : ℕ
  pub threads_deleted : ℕ
  pub threads_capped : ℕ
  pub threads_quota_pruned : ℕ
  pub payloads_deleted : ℕ
  pub errors : ℕ

-- The blobs of some deleted posts: their chunk state, their caches, their files.
unfoldable pub delete_blobs : BoardState → List String → BoardState × ℕ
delete_blobs s hashes =
    let (transfers, _) = delete_chunk_manifests_for_blobs s.transfers hashes in
    let (cleared, _) = delete_chunk_cache_bulk s.files hashes in
    let (files, n) = delete_payloads_bulk cleared hashes in
    (record s { transfers = transfers; files = files }, n)

-- The loop over the deleted threads.
unfoldable pub delete_thread_blobs : BoardState → List (String × List String) → ℕ → BoardState × ℕ
unfolding delete_blobs
delete_thread_blobs s [] payloads_deleted = (s, payloads_deleted)
delete_thread_blobs s ((thread_id, hashes) ∷ threads) payloads_deleted =
    let (s', n) = delete_blobs s hashes in delete_thread_blobs s' threads (payloads_deleted + n)

-- The work on a board whose configuration is known.
unfoldable pub prune_configured :
    Board → (now : ℕ) → (pinned_thread_ids : List String) → BoardState → BoardState × PruneResult
unfolding delete_thread_blobs
prune_configured config now pinned_thread_ids s =
    let (marked, abandoned_ids) = mark_expired_threads now pinned_thread_ids s.posts in
    let (left, deleted_threads) = delete_abandoned_threads marked in
    let (s1, n1) = delete_thread_blobs (record s { posts = left }) deleted_threads 0 in
    let (kept, capped_threads) =
      enforce_thread_cap config.max_active_threads_local pinned_thread_ids left in
    let (s2, n2) = delete_thread_blobs (record s1 { posts = kept }) capped_threads n1 in
    (
      s2,
      record {
        boards_scanned = 1;
        threads_abandoned = length abandoned_ids;
        threads_deleted = length deleted_threads;
        threads_capped = length capped_threads;
        threads_quota_pruned = 0;
        payloads_deleted = n2;
        errors = 0;
      },
    )

unfoldable pub prune_board :
    (now : ℕ) → (pinned_thread_ids : List String) → BoardState → BoardState × PruneResult
unfolding prune_configured
prune_board now pinned_thread_ids s = elim s.board_config [
  | none ↦ (
    s,
    record {
      boards_scanned = 1;
      threads_abandoned = 0;
      threads_deleted = 0;
      threads_capped = 0;
      threads_quota_pruned = 0;
      payloads_deleted = 0;
      errors = 0;
    },
  )
  | some config ↦ prune_configured config now pinned_thread_ids s
]
