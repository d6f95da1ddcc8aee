-- ===== src/Pruning/Cycle/Pruned.antt =====
-- What a cycle leaves of each board.
use retiboard.Base.{
  ℕ, ◌+◌, ◌≡◌, ap, ◌∙◌, arith, String, same, same_iff, List, [], ◌∷◌, length, filter_by, some,
  text_key, Bool-cases, inl, inr,
}
use retiboard.Base.Dict.{Dict, lookup}
use retiboard.Base.Sets.{contains}
use retiboard.Pruning.Board.{BoardState, PruneResult, prune_board}
use retiboard.Pruning.Quota.{chosen_threads}
use retiboard.Pruning.Quota.Applied.{without_threads, enforce_global_quota_lem}
use retiboard.Pruning.Cycle.{nothing_pruned, counted, prune_each, prune_all_boards}

module _ (now : ℕ) (pinned_thread_ids : String → List String) where
  lookup-prune_each :
      (b : String) (boards : Dict String BoardState) (r : PruneResult) (s : BoardState)
      → lookup b boards ≡ some s
      → lookup b (prune_each now pinned_thread_ids boards r).0
        ≡ some (prune_board now (pinned_thread_ids b) s).0
  unfolding prune_each lookup
  lookup-prune_each b [] r s h = cc
  lookup-prune_each b ((k, u) ∷ boards) r s h = elim (Bool-cases (same k b)) [
    | inl this ↦
        let is_b = (same_iff k b).0 this in
        let is_s : u ≡ s = ground (arith, h, this) in
        ground (
          arith,
          this,
          ap (λ x. (prune_board now (pinned_thread_ids x) u).0) is_b
              ∙ ap (λ v. (prune_board now (pinned_thread_ids b) v).0) is_s,
        )
    | inr other ↦ ground (
      arith,
      other,
      lookup-prune_each b boards (counted r (prune_board now (pinned_thread_ids k) u).1) s
          (ground (arith, h, other)),
    )
  ]

  scanned-prune_each :
      (boards : Dict String BoardState) (r : PruneResult)
      → (prune_each now pinned_thread_ids boards r).1.boards_scanned
        ≡ r.boards_scanned + length boards
  unfolding prune_each
  scanned-prune_each [] r = omega arith
  scanned-prune_each ((k, u) ∷ boards) r =
      scanned-prune_each boards (counted r (prune_board now (pinned_thread_ids k) u).1)
      ∙ omega arith

  -- The boards when each has been pruned by itself.
  abbrev pub pruned_alone : Dict String BoardState → Dict String BoardState
  pruned_alone boards = (prune_each now pinned_thread_ids boards nothing_pruned).0

  -- A cycle prunes each board by itself, and then deletes on it, as a whole, the threads that the quota
  -- takes there, with the boards as they have become; every other row stays. It counts all boards.
  pub prune_all_boards_lem :
      (limit_mb : ℕ) (total_bytes : Dict String BoardState → ℕ) (boards : Dict String BoardState)
      (b : String) (s : BoardState)
      → lookup b boards ≡ some s
      → (s' : BoardState) × (lookup b
            (prune_all_boards now pinned_thread_ids limit_mb total_bytes boards).0
          ≡ some s')
        × (s'.posts
            ≡ without_threads
                (filter_by
                  (λ t. same t.board_id b)
                  (chosen_threads
                    (λ c t. contains t (pinned_thread_ids c))
                    limit_mb
                    (total_bytes (pruned_alone boards))
                    (pruned_alone boards)))
                (prune_board now (pinned_thread_ids b) s).0.posts)
        × ((prune_all_boards now pinned_thread_ids limit_mb total_bytes boards).1.boards_scanned
            ≡ length boards)
  unfolding prune_all_boards
  prune_all_boards_lem limit_mb total_bytes boards b s h =
      let pruned = pruned_alone boards in
      let (s', found, posts, _) =
        enforce_global_quota_lem (λ c t. contains t (pinned_thread_ids c)) limit_mb
          (total_bytes pruned) pruned b (prune_board now (pinned_thread_ids b) s).0
          (lookup-prune_each b boards nothing_pruned s h) in
      (s', found, posts, scanned-prune_each boards nothing_pruned ∙ omega arith)
