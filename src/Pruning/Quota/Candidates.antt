-- ===== src/Pruning/Quota/Candidates.antt =====
-- The threads among which the quota chooses.
use mathlib.Core.List.{Permᴰ}
use retiboard.Base.{
  ◌+◌, ◌≡◌, refl, ltb, ap, if◌then◌else◌, Bool, inl, inr, Bool-cases, not, ◌&&◌, String, same, List,
  [], ◌∷◌, ◌++◌, map, filter_by, sum_by,
}
use retiboard.Base.Dict.{Dict}
use retiboard.Base.Sort.Perm.{sort_by-perm}
use retiboard.Store.Models.{PostMetadata}
use retiboard.Store.Threads.{is_active}
use retiboard.Purge.{row_blobs}
use retiboard.Pruning.Board.{BoardState}
use retiboard.Pruning.Quota.{
  GlobalThread, global_thread, threads_of, all_threads, get_all_active_threads_global,
}

module _ (is_pinned : (board_id thread_id : String) → Bool) where
  -- The rows that open a thread of the board which is not abandoned and not pinned; each is described
  -- by the blobs and the declared sizes of all rows of its thread, and its last activity.
  abbrev pub candidates_of :
      (board_id : String) (posts rows : List PostMetadata) → List GlobalThread
  candidates_of board_id posts [] = []
  candidates_of board_id posts (p ∷ rows) =
      let rest = candidates_of board_id posts rows in
      if same p.post_id p.thread_id && not p.is_abandoned && not (is_pinned board_id p.thread_id)
      then record {
        board_id = board_id;
        thread_id = p.thread_id;
        content_hashes = row_blobs (filter_by (λ q. same q.thread_id p.thread_id) posts);
        total_size =
            sum_by (λ q. q.payload_size + q.attachment_payload_size)
              (filter_by (λ q. same q.thread_id p.thread_id) posts);
        last_activity = p.thread_last_activity;
      }
        ∷ rest
      else rest

  abbrev pub candidates : Dict String BoardState → List GlobalThread
  candidates [] = []
  candidates ((board_id, s) ∷ boards) = candidates_of board_id s.posts s.posts ++ candidates boards

  described :
      (board_id : String) (posts rows : List PostMetadata)
      → map
          (global_thread board_id posts)
          (filter_by (λ p. not (is_pinned board_id p.thread_id)) (filter_by is_active rows))
        ≡ candidates_of board_id posts rows
  unfolding filter_by global_thread
  described board_id posts [] = refl
  described board_id posts (p ∷ rows) = elim (Bool-cases (is_active p)) [
    | inr e ↦ rw (e, filter_by) (described board_id posts rows)
    | inl e ↦ elim (Bool-cases (is_pinned board_id p.thread_id)) [
      | inl f ↦ rw (e, f, filter_by) (described board_id posts rows)
      | inr f ↦
          rw (e, f, filter_by)
            (ap (◌∷◌ (global_thread board_id posts p)) (described board_id posts rows))
    ]
  ]

  all_threads-eq :
      (boards : Dict String BoardState) → all_threads is_pinned boards ≡ candidates boards
  unfolding all_threads threads_of
  all_threads-eq [] = refl
  all_threads-eq ((board_id, s) ∷ boards) =
      rw (described board_id s.posts s.posts, all_threads-eq boards) refl

  pub get_all_active_threads_global-perm :
      (boards : Dict String BoardState)
      → Permᴰ (get_all_active_threads_global is_pinned boards) (candidates boards)
  unfolding get_all_active_threads_global
  get_all_active_threads_global-perm boards =
      rw (← all_threads-eq boards)
        (sort_by-perm (λ t u. ltb t.last_activity u.last_activity) (all_threads is_pinned boards))
