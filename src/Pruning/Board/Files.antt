-- ===== src/Pruning/Board/Files.antt =====
-- Which payload files `prune_board` leaves.
use retiboard.Base.{
  ℕ, ◌≡◌, ap, ◌∙◌, arith, if◌then◌else◌, Bool, ◌&&◌, ◌||◌, String, List, any_by, none, some,
  text_key,
}
use mathlib.Core.Path.{fun_ext}
use retiboard.Base.Sets.{contains}
use retiboard.Store.Models.{Board, PostMetadata}
use retiboard.Store.Threads.{cull_ids, expired_ids, enforce_thread_cap, mark_expired_threads}
use retiboard.Store.Threads.Culled.{doomed-expired_ids, expired-deleted}
use retiboard.Store.Threads.Cap.{doomed-cull_ids}
use retiboard.Storage.{read_payload}
use retiboard.Pruning.Board.{BoardState, prune_configured, prune_board}
use retiboard.Pruning.Board.Blobs.{
  gone_if, refers, delete_thread_blobs-files, delete_abandoned_threads-blobs, mark_and_delete-blobs,
}
use retiboard.Pruning.Board.Pruned.{due, not_due, deleted, first_stage, capped, unmarked}

module _ (now : ℕ) (pinned : List String) (config : Board) (s : BoardState) (h : String) where
  abbrev names : List (String × List String) → Bool
  names = any_by (λ r. contains h r.1)

  deleted-names :
      names (deleted now pinned config s).1
      ≡ any_by (λ p. refers h p && due now pinned s.posts p.thread_id) s.posts
  unfolding mark_expired_threads
  deleted-names =
      delete_abandoned_threads-blobs h (expired_ids now pinned s.posts) s.posts
      ∙ ap (λ gone. any_by (λ (p : PostMetadata). refers h p && gone p.thread_id) s.posts)
          (fun_ext (doomed-expired_ids now pinned s.posts))

  capped-names :
      names (capped now pinned config s).1
      ≡ any_by
          (λ p.
            refers h p
            && contains p.thread_id
                (cull_ids config.max_active_threads_local pinned (not_due now pinned s.posts)))
          (not_due now pinned s.posts)
  unfolding enforce_thread_cap
  capped-names =
      ap (λ posts. names (enforce_thread_cap config.max_active_threads_local pinned posts).1)
        (expired-deleted now pinned s.posts)
      ∙ mark_and_delete-blobs h
          (cull_ids config.max_active_threads_local pinned (not_due now pinned s.posts))
          (not_due now pinned s.posts)
          (fun_ext (
            doomed-cull_ids config.max_active_threads_local pinned (not_due now pinned s.posts)
              (unmarked now pinned config s)))

  prune_configured-files :
      read_payload (prune_configured config now pinned s).0.files h
      ≡ gone_if
          (names (capped now pinned config s).1)
          (gone_if (names (deleted now pinned config s).1) (read_payload s.files h))
  unfolding prune_configured
  prune_configured-files =
      delete_thread_blobs-files h (capped now pinned config s).1
        (record (first_stage now pinned config s).0 { posts = (capped now pinned config s).0 })
        (first_stage now pinned config s).1
      ∙ ap (gone_if (names (capped now pinned config s).1)) (
          delete_thread_blobs-files h (deleted now pinned config s).1
            (record s { posts = (deleted now pinned config s).0 }) 0)

-- After `prune_board`, a payload file is gone exactly if it was missing before or a post of a removed
-- thread names it as its text or its attachments, also where a post that is left names it too; every
-- other file has the bytes that it had.
pub prune_board-files :
    (now : ℕ) (pinned : List String) (config : Board) (s : BoardState) (h : String)
    → s.board_config ≡ some config
    → read_payload (prune_board now pinned s).0.files h ≡ (
        if any_by (λ p. refers h p && due now pinned s.posts p.thread_id) s.posts
          || any_by
              (λ p.
                refers h p
                && contains p.thread_id
                    (cull_ids config.max_active_threads_local pinned (not_due now pinned s.posts)))
              (not_due now pinned s.posts)
        then none
        else read_payload s.files h)
unfolding prune_board
prune_board-files now pinned config s h e =
    rw (e, prune_board)
      (prune_configured-files now pinned config s h
        ∙ ground (arith, deleted-names now pinned config s h, capped-names now pinned config s h))
