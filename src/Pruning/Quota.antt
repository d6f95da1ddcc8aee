-- ===== src/Pruning/Quota.antt =====
-- `enforce_global_quota`: the oldest threads of all boards go until the disk is below nine tenths of
-- its limit. The boards are a dictionary in the order of their directories; how many bytes their files
-- take is an argument, and so is which threads are pinned.
pub mod Candidates
pub mod Chosen
pub mod Applied
use retiboard.Base.{
  ℕ, ◌+◌, ◌-◌, ◌*◌, ◌/◌, ltb, leb, if◌then◌else◌, Bool, not, String, same, List, [], ◌∷◌, ◌++◌, map,
  length, filter_by, sum_by, Option, none, some, text_key,
}
use retiboard.Base.Dict.{Dict, lookup, insert}
use retiboard.Base.Sort.{sort_by}
use retiboard.Store.Models.{PostMetadata}
use retiboard.Store.Threads.{is_active, delete_threads_bulk}
use retiboard.Purge.{row_blobs}
use retiboard.Pruning.Board.{BoardState, PruneResult, delete_blobs}

pub record GlobalThread : Type 0 where
  pub board_id : String
  pub thread_id : String
  pub content_hashes : List String
  pub total_size : ℕ
  pub last_activity : ℕ

-- The rows of a thread, its blobs, and their declared sizes.
unfoldable pub global_thread : (board_id : String) → List PostMetadata → PostMetadata → GlobalThread
global_thread board_id posts op =
    let rows = filter_by (λ p. same p.thread_id op.thread_id) posts in
    record {
      board_id = board_id;
      thread_id = op.thread_id;
      content_hashes = row_blobs rows;
      total_size = sum_by (λ p. p.payload_size + p.attachment_payload_size) rows;
      last_activity = op.thread_last_activity;
    }

module _ (is_pinned : (board_id thread_id : String) → Bool) where
  unfoldable pub threads_of : (board_id : String) → List PostMetadata → List GlobalThread
  unfolding global_thread
  threads_of board_id posts =
      map (global_thread board_id posts)
        (filter_by (λ p. not (is_pinned board_id p.thread_id)) (filter_by is_active posts))

  unfoldable pub all_threads : Dict String BoardState → List GlobalThread
  unfolding threads_of
  all_threads [] = []
  all_threads ((board_id, s) ∷ boards) = threads_of board_id s.posts ++ all_threads boards

  unfoldable pub get_all_active_threads_global : Dict String BoardState → List GlobalThread
  unfolding all_threads
  get_all_active_threads_global boards =
      sort_by (λ t u. ltb t.last_activity u.last_activity) (all_threads boards)

-- The loop that chooses threads, with the bytes that have been chosen so far.
unfoldable pub chosen_from :
    (bytes_to_prune pruned_bytes : ℕ) → List GlobalThread → List GlobalThread
chosen_from bytes_to_prune pruned_bytes [] = []
chosen_from bytes_to_prune pruned_bytes (t ∷ threads) =
    let rest = chosen_from bytes_to_prune (pruned_bytes + t.total_size) threads in
    if leb bytes_to_prune pruned_bytes then [] else t ∷ rest

-- The list of a board, with one more thread.
abbrev pub joined : GlobalThread → Option (List GlobalThread) → List GlobalThread
joined t none = t ∷ []
joined t (some group) = group ++ t ∷ []

-- `threads_to_prune_by_board`
unfoldable pub by_board :
    List GlobalThread → Dict String (List GlobalThread) → Dict String (List GlobalThread)
by_board [] groups = groups
by_board (t ∷ threads) groups =
    by_board threads (insert t.board_id (joined t (lookup t.board_id groups)) groups)

unfoldable pub all_hashes : List GlobalThread → List String
all_hashes [] = []
all_hashes (t ∷ threads) = t.content_hashes ++ all_hashes threads

-- The deletions on one board.
unfoldable pub prune_threads : BoardState → List GlobalThread → BoardState × ℕ
unfolding all_hashes delete_blobs delete_threads_bulk
prune_threads s group =
    delete_blobs (record s { posts = delete_threads_bulk (map (λ t. t.thread_id) group) s.posts })
      (all_hashes group)

-- The loop over the boards. One that is not there would be created empty, so that nothing is deleted.
unfoldable pub apply_groups :
    Dict String (List GlobalThread) → Dict String BoardState → ℕ → Dict String BoardState × ℕ
unfolding prune_threads
apply_groups [] boards payloads_deleted = (boards, payloads_deleted)
apply_groups ((board_id, group) ∷ groups) boards payloads_deleted = elim (lookup board_id boards) [
  | none ↦ apply_groups groups boards payloads_deleted
  | some s ↦
      apply_groups groups (insert board_id (prune_threads s group).0 boards)
        (payloads_deleted + (prune_threads s group).1)
]

unfoldable pub limit_bytes : ℕ → ℕ
limit_bytes limit_mb = limit_mb * 1024 * 1024

-- `total_bytes - int(limit_bytes * 0.9)`
unfoldable pub bytes_to_prune : (limit_mb total_bytes : ℕ) → ℕ
unfolding limit_bytes
bytes_to_prune limit_mb total_bytes = total_bytes - limit_bytes limit_mb * 9 / 10

module _ (is_pinned : (board_id thread_id : String) → Bool) (limit_mb total_bytes : ℕ) where
  unfoldable pub chosen_threads : Dict String BoardState → List GlobalThread
  unfolding get_all_active_threads_global chosen_from bytes_to_prune
  chosen_threads boards =
      if leb total_bytes (limit_bytes limit_mb)
      then []
      else chosen_from (bytes_to_prune limit_mb total_bytes) 0
          (get_all_active_threads_global is_pinned boards)

  unfoldable pub enforce_global_quota :
      Dict String BoardState → Dict String BoardState × PruneResult
  unfolding chosen_threads by_board apply_groups
  enforce_global_quota boards =
      let chosen = chosen_threads boards in
      let (boards', payloads_deleted) = apply_groups (by_board chosen []) boards 0 in
      (
        boards',
        record {
          boards_scanned = 0;
          threads_abandoned = 0;
          threads_deleted = 0;
          threads_capped = 0;
          threads_quota_pruned = length chosen;
          payloads_deleted = payloads_deleted;
          errors = 0;
        },
      )
