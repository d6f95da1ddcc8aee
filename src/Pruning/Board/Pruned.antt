-- ===== src/Pruning/Board/Pruned.antt =====
-- The rows that `prune_board` leaves.
use retiboard.Base.{
  ℕ, ◌+◌, ◌≤◌, max, ◌≡◌, refl, ap, ◌∙◌, arith, Bool, true, false, not, ◌&&◌, String, same, same_iff,
  List, [], ◌∷◌, length, filter_by, any_by, some, text_key, Bool-cases, inl, inr,
}
use retiboard.Base.Sets.{contains}
use retiboard.Store.Models.{Board, PostMetadata}
use retiboard.Store.Lifecycle.Rows.{DistinctIds}
use retiboard.Store.Threads.{
  active_thread_ids, cull_ids, get_thread_count, mark_expired_threads, delete_abandoned_threads,
  enforce_thread_cap,
}
use retiboard.Store.Threads.Culled.{is_due, marked, expired-deleted}
use retiboard.Store.Threads.Cap.{
  filter_by-DistinctIds, enforce_thread_cap-rows, enforce_thread_cap-count,
}
use retiboard.Pruning.Board.{
  BoardState, delete_blobs, delete_thread_blobs, prune_configured, prune_board,
}

any_by-filter_by :
    (test keep : PostMetadata → Bool) (posts : List PostMetadata)
    → any_by test (filter_by keep posts) ≡ any_by (λ p. keep p && test p) posts
unfolding any_by filter_by
any_by-filter_by test keep [] = refl
any_by-filter_by test keep (p ∷ posts) = ground (arith, any_by-filter_by test keep posts)

any_by-weaker :
    (test keep : PostMetadata → Bool) (posts : List PostMetadata)
    → any_by test posts ≡ false
    → any_by (λ p. keep p && test p) posts ≡ false
unfolding any_by
any_by-weaker test keep [] h = refl
any_by-weaker test keep (p ∷ posts) h = ground (arith, any_by-weaker test keep posts)

any_by-none :
    (test : PostMetadata → Bool)
    → ((p : PostMetadata) → test p ≡ false)
    → (posts : List PostMetadata) → any_by test posts ≡ false
unfolding any_by
any_by-none test h [] = refl
any_by-none test h (p ∷ posts) = rw (h p, any_by-none test h posts) refl

module _ (now : ℕ) (pinned : List String) where
  abbrev pub due : List PostMetadata → String → Bool
  due posts t = any_by (is_due now pinned t) posts

  -- The rows of the threads that are not due.
  abbrev pub not_due : List PostMetadata → List PostMetadata
  not_due posts = filter_by (λ p. not (due posts p.thread_id)) posts

  elsewhere :
      (kept : Bool) (p : PostMetadata) (t : String)
      → same p.thread_id t ≡ false
      → (kept && is_due now pinned t p) ≡ false
  elsewhere kept p t e = ground arith

  due_there :
      (posts : List PostMetadata) (t : String) (p : PostMetadata)
      → due posts t ≡ true
      → (not (due posts p.thread_id) && is_due now pinned t p) ≡ false
  due_there posts t p h = elim (Bool-cases (same p.thread_id t)) [
    | inl e ↦ rw (ap (due posts) ((same_iff p.thread_id t).0 e) ∙ h) refl
    | inr e ↦ elsewhere (not (due posts p.thread_id)) p t e
  ]

  due-not_due : (posts : List PostMetadata) (t : String) → due (not_due posts) t ≡ false
  due-not_due posts t =
      any_by-filter_by (is_due now pinned t) (λ p. not (due posts p.thread_id)) posts
      ∙ elim (Bool-cases (due posts t)) [
        | inl e ↦
            any_by-none (λ p. not (due posts p.thread_id) && is_due now pinned t p)
              (λ p. due_there posts t p e) posts
        | inr e ↦ any_by-weaker (is_due now pinned t) (λ p. not (due posts p.thread_id)) posts e
      ]

  marked-due :
      (posts : List PostMetadata) (t : String)
      → due posts t ≡ false
      → any_by (marked t) posts ≡ false
  unfolding any_by
  marked-due [] t h = refl
  marked-due (p ∷ posts) t h = ground (arith, marked-due posts t)

module _ (now : ℕ) (pinned : List String) where
  -- The blobs are not in the tables of posts and rules.
  delete_thread_blobs-kept :
      (threads : List (String × List String)) (s : BoardState) (n : ℕ)
      → ((delete_thread_blobs s threads n).0.posts ≡ s.posts)
        × ((delete_thread_blobs s threads n).0.content_control ≡ s.content_control)
        × ((delete_thread_blobs s threads n).0.board_config ≡ s.board_config)
  unfolding delete_thread_blobs delete_blobs
  delete_thread_blobs-kept [] s n = (refl, refl, refl)
  delete_thread_blobs-kept ((t, hashes) ∷ threads) s n =
      delete_thread_blobs-kept threads (delete_blobs s hashes).0 (n + (delete_blobs s hashes).1)

  module _ (config : Board) (s : BoardState) where
    abbrev pub left : List PostMetadata
    left = not_due now pinned s.posts

    abbrev pub ids : List String
    ids = cull_ids config.max_active_threads_local pinned left

    abbrev pub deleted : List PostMetadata × List (String × List String)
    deleted = delete_abandoned_threads (mark_expired_threads now pinned s.posts).0

    abbrev pub first_stage : BoardState × ℕ
    first_stage = delete_thread_blobs (record s { posts = deleted.0 }) deleted.1 0

    abbrev pub capped : List PostMetadata × List (String × List String)
    capped = enforce_thread_cap config.max_active_threads_local pinned deleted.0

    prune_configured-posts :
        (prune_configured config now pinned s).0.posts
        ≡ (enforce_thread_cap config.max_active_threads_local pinned left).0
    unfolding prune_configured
    prune_configured-posts =
        (delete_thread_blobs-kept capped.1 (record first_stage.0 { posts = capped.0 })
          first_stage.1).0
        ∙ ap (λ posts. (enforce_thread_cap config.max_active_threads_local pinned posts).0)
            (expired-deleted now pinned s.posts)

    prune_configured-rest :
        ((prune_configured config now pinned s).0.content_control ≡ s.content_control)
        × ((prune_configured config now pinned s).0.board_config ≡ s.board_config)
    unfolding prune_configured
    prune_configured-rest =
        let second =
          delete_thread_blobs-kept capped.1 (record first_stage.0 { posts = capped.0 })
            first_stage.1 in
        let first = delete_thread_blobs-kept deleted.1 (record s { posts = deleted.0 }) 0 in
        (second.1 ∙ first.1, second.2 ∙ first.2)

    pub unmarked : (t : String) → any_by (marked t) left ≡ false
    unmarked t = marked-due now pinned left t (due-not_due now pinned s.posts t)

    kept_rows :
        (prune_configured config now pinned s).0.posts
        ≡ filter_by (λ p. not (contains p.thread_id ids)) left
    kept_rows =
        prune_configured-posts
        ∙ enforce_thread_cap-rows config.max_active_threads_local pinned left unmarked

    none_due :
        (t : String) → due now pinned (prune_configured config now pinned s).0.posts t ≡ false
    none_due t =
        ap (λ posts. due now pinned posts t) kept_rows
        ∙ any_by-filter_by (is_due now pinned t) (λ p. not (contains p.thread_id ids)) left
        ∙ any_by-weaker (is_due now pinned t) (λ p. not (contains p.thread_id ids)) left
            (due-not_due now pinned s.posts t)

    count_kept :
        DistinctIds s.posts
        → get_thread_count (prune_configured config now pinned s).0.posts
          ≤ max config.max_active_threads_local
              (length (filter_by (λ t. contains t pinned) (active_thread_ids left)))
    count_kept d = rw prune_configured-posts (
        enforce_thread_cap-count config.max_active_threads_local pinned left unmarked
          (filter_by-DistinctIds (λ p. not (due now pinned s.posts p.thread_id)) s.posts d))

-- `prune_board` removes threads as a whole and leaves every other row as it was: it removes the
-- threads whose first post is marked as expired or is over and not pinned, and then those that the
-- limit of the board culls from what is left. Afterwards no thread is due, and the number of active
-- threads is within the limit or that of the pinned ones, whichever is more. The rules of the board and
-- its configuration do not change.
pub prune_board_lem :
    (now : ℕ) (pinned : List String) (config : Board) (s : BoardState)
    → s.board_config ≡ some config
    → DistinctIds s.posts
    → ((prune_board now pinned s).0.posts
        ≡ filter_by
            (λ p. not (
              contains p.thread_id
                (cull_ids config.max_active_threads_local pinned (not_due now pinned s.posts))))
            (not_due now pinned s.posts))
      × ((t : String) → due now pinned (prune_board now pinned s).0.posts t ≡ false)
      × (get_thread_count (prune_board now pinned s).0.posts
          ≤ max config.max_active_threads_local (
              length (
                filter_by
                  (λ t. contains t pinned)
                  (active_thread_ids (not_due now pinned s.posts)))))
      × ((prune_board now pinned s).0.content_control ≡ s.content_control)
      × ((prune_board now pinned s).0.board_config ≡ s.board_config)
unfolding prune_board
prune_board_lem now pinned config s e d =
    rw (e, prune_board)
      (
        kept_rows now pinned config s,
        none_due now pinned config s,
        count_kept now pinned config s d,
        (prune_configured-rest now pinned config s).0,
        (prune_configured-rest now pinned config s).1 ∙ e,
      )
