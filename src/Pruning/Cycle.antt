-- ===== src/Pruning/Cycle.antt =====
-- `prune_all_boards`: each board by itself, then the quota over what is left. The boards are a dictionary
-- in the order of their directories. The pinned threads of a board, and the bytes that the files of the
-- boards take when the quota looks, are arguments; the time that a cycle takes is left out.
pub mod Pruned
use retiboard.Base.{ℕ, ◌+◌, String, List, [], ◌∷◌, text_key}
use retiboard.Base.Dict.{Dict}
use retiboard.Base.Sets.{contains}
use retiboard.Pruning.Board.{BoardState, PruneResult, prune_board}
use retiboard.Pruning.Quota.{enforce_global_quota}

abbrev pub nothing_pruned : PruneResult
nothing_pruned = record {
  boards_scanned = 0;
  threads_abandoned = 0;
  threads_deleted = 0;
  threads_capped = 0;
  threads_quota_pruned = 0;
  payloads_deleted = 0;
  errors = 0;
}

-- The result of one more board.
abbrev pub counted : PruneResult → PruneResult → PruneResult
counted result board_result = record result {
  boards_scanned = result.boards_scanned + 1;
  threads_abandoned = result.threads_abandoned + board_result.threads_abandoned;
  threads_deleted = result.threads_deleted + board_result.threads_deleted;
  threads_capped = result.threads_capped + board_result.threads_capped;
  payloads_deleted = result.payloads_deleted + board_result.payloads_deleted;
}

module _ (now : ℕ) (pinned_thread_ids : String → List String) where
  -- The loop over the boards.
  unfoldable pub prune_each :
      Dict String BoardState → PruneResult → Dict String BoardState × PruneResult
  prune_each [] result = ([], result)
  prune_each ((board_id, s) ∷ boards) result =
      let (s', board_result) = prune_board now (pinned_thread_ids board_id) s in
      let (rest, total) = prune_each boards (counted result board_result) in
      ((board_id, s') ∷ rest, total)

  unfoldable pub prune_all_boards :
      (limit_mb : ℕ)
      → (total_bytes : Dict String BoardState → ℕ) → Dict String BoardState
      → Dict String BoardState × PruneResult
  unfolding prune_each
  prune_all_boards limit_mb total_bytes boards =
      let (pruned, result) = prune_each boards nothing_pruned in
      let (left, quota_result) =
        enforce_global_quota (λ b t. contains t (pinned_thread_ids b)) limit_mb (total_bytes pruned)
          pruned in
      (
        left,
        record result {
          threads_quota_pruned = quota_result.threads_quota_pruned;
          payloads_deleted = result.payloads_deleted + quota_result.payloads_deleted;
        },
      )
