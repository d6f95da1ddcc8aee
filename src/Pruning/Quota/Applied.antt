-- ===== src/Pruning/Quota/Applied.antt =====
-- What the quota does to each board.
use retiboard.Base.{
  ℕ, ◌+◌, ◌≡◌, inl, inr, refl, sym, ap, ◌∙◌, arith, if◌then◌else◌, Bool, true, not, String, same,
  same_iff, List, [], ◌∷◌, ◌++◌, append-nil, append_assoc, map, filter_by, filter_by_unchanged, All,
  none, some, text_key, Bool-cases, Option-cases, subst,
}
use retiboard.Base.Dict.{Dict, IsDict, lookup, insert, lookup-insert, insert-IsDict}
use retiboard.Base.Sets.{contains}
use retiboard.Store.Models.{PostMetadata}
use retiboard.Store.Threads.{delete_threads_bulk}
use retiboard.Pruning.Board.{BoardState, delete_blobs}
use retiboard.Pruning.Quota.{
  GlobalThread, joined, by_board, prune_threads, apply_groups, chosen_threads, enforce_global_quota,
}

every_one_true : (posts : List PostMetadata) → All (λ p. true ≡ true) posts
every_one_true [] = tt
every_one_true (p ∷ posts) = (refl, every_one_true posts)

-- The rows of a board without those of some threads.
abbrev pub without_threads : List GlobalThread → List PostMetadata → List PostMetadata
without_threads threads posts =
    filter_by (λ p. not (contains p.thread_id (map (λ t. t.thread_id) threads))) posts

by_board-IsDict :
    (threads : List GlobalThread) (groups : Dict String (List GlobalThread))
    → IsDict groups
    → IsDict (by_board threads groups)
unfolding by_board
by_board-IsDict [] groups h = h
by_board-IsDict (t ∷ threads) groups h =
    by_board-IsDict threads (insert t.board_id (joined t (lookup t.board_id groups)) groups)
      (insert-IsDict t.board_id (joined t (lookup t.board_id groups)) groups h)

module _ (b : String) where
  -- The threads that are to go on this board.
  abbrev group_in : Dict String (List GlobalThread) → List GlobalThread
  group_in groups = elim (lookup b groups) [ none ↦ [] | some group ↦ group ]

  abbrev of_board : List GlobalThread → List GlobalThread
  of_board = filter_by (λ t. same t.board_id b)

  one_group :
      (t : GlobalThread) (groups : Dict String (List GlobalThread))
      → group_in (insert t.board_id (joined t (lookup t.board_id groups)) groups)
        ≡ (if same t.board_id b then group_in groups ++ t ∷ [] else group_in groups)
  one_group t groups =
      ground (arith, lookup-insert t.board_id b (joined t (lookup t.board_id groups)) groups)

  group_in-by_board :
      (threads : List GlobalThread) (groups : Dict String (List GlobalThread))
      → group_in (by_board threads groups) ≡ group_in groups ++ of_board threads
  unfolding by_board filter_by
  group_in-by_board [] groups = sym (append-nil (group_in groups))
  group_in-by_board (t ∷ threads) groups =
      let more = insert t.board_id (joined t (lookup t.board_id groups)) groups in
      group_in-by_board threads more ∙ elim (Bool-cases (same t.board_id b)) [
        | inl e ↦
            rw (one_group t groups, e) (append_assoc (group_in groups) (t ∷ []) (of_board threads))
        | inr e ↦ rw (one_group t groups, e) refl
      ]

  abbrev Left : Dict String BoardState → BoardState → List GlobalThread → Type 0
  Left boards s group =
      (s' : BoardState) × (lookup b boards ≡ some s')
      × (s'.posts ≡ without_threads group s.posts)
      × (s'.content_control ≡ s.content_control)

  no_thread-Left :
      (boards : Dict String BoardState) (s : BoardState)
      → lookup b boards ≡ some s
      → Left boards s []
  unfolding contains
  no_thread-Left boards s h =
      (s, h, sym (filter_by_unchanged (λ p. true) s.posts (every_one_true s.posts)), refl)

  pruned_first :
      (group : List GlobalThread) (boards : Dict String BoardState) (s : BoardState)
      → Left boards (prune_threads s group).0 []
      → Left boards s group
  unfolding prune_threads delete_blobs delete_threads_bulk contains
  pruned_first group boards s (s', found, posts, rules) = (
    s',
    found,
    posts
        ∙ filter_by_unchanged (λ p. true) (without_threads group s.posts)
            (every_one_true (without_threads group s.posts)),
    rules,
  )

  group_none :
      (groups : Dict String (List GlobalThread)) → lookup b groups ≡ none → group_in groups ≡ []
  group_none groups h = rw (h, group_in) refl

  group_nil : group_in [] ≡ []
  unfolding lookup
  group_nil = refl

  group_here :
      (k : String) (group : List GlobalThread) (groups : Dict String (List GlobalThread))
      → group_in ((k, group) ∷ groups) ≡ (if same k b then group else group_in groups)
  unfolding lookup
  group_here k group groups = ground arith

  apply_groups-Left :
      (groups : Dict String (List GlobalThread)) (boards : Dict String BoardState) (n : ℕ)
      (s : BoardState)
      → IsDict groups
      → lookup b boards ≡ some s
      → Left (apply_groups groups boards n).0 s (group_in groups)
  unfolding apply_groups
  apply_groups-Left [] boards n s d h =
      subst (Left boards s) (sym group_nil) (no_thread-Left boards s h)
  apply_groups-Left ((k, group) ∷ groups) boards n s d h = elim (Bool-cases (same k b)) [
    | inl e ↦
        let is_b = (same_iff k b).0 e in
        let there : lookup k boards ≡ some s = ap (λ x. lookup x boards) is_b ∙ h in
        let s1 = (prune_threads s group).0 in
        let written = insert k s1 boards in
        let found : lookup b written ≡ some s1 = ground (arith, lookup-insert k b s1 boards, e) in
        let no_more : lookup b groups ≡ none = ap (λ x. lookup x groups) (sym is_b) ∙ d.0 in
        let rest = apply_groups-Left groups written (n + (prune_threads s group).1) s1 d.1 found in
        let first =
          pruned_first group (apply_groups groups written (n + (prune_threads s group).1)).0 s (
            subst (Left (apply_groups groups written (n + (prune_threads s group).1)).0 s1)
              (group_none groups no_more) rest) in
        rw (group_here k group groups, e, there, apply_groups) first
    | inr e ↦ elim (Option-cases (lookup k boards)) [
      | inl missing ↦
          rw (group_here k group groups, e, missing, apply_groups)
            (apply_groups-Left groups boards n s d.1 h)
      | inr (sk, there) ↦
          let written = insert k (prune_threads sk group).0 boards in
          let found : lookup b written ≡ some s =
            ground (arith, lookup-insert k b (prune_threads sk group).0 boards, e, h) in
          rw (group_here k group groups, e, there, apply_groups)
            (apply_groups-Left groups written (n + (prune_threads sk group).1) s d.1 found)
    ]
  ]

-- On each board, the threads that the quota has taken there are deleted as a whole, and all other rows
-- stay as they were; the rules of the board do not change.
pub enforce_global_quota_lem :
    (is_pinned : String → String → Bool) (limit_mb total_bytes : ℕ)
    (boards : Dict String BoardState) (board_id : String) (s : BoardState)
    → lookup board_id boards ≡ some s
    → (s' : BoardState) × (lookup board_id
          (enforce_global_quota is_pinned limit_mb total_bytes boards).0
        ≡ some s')
      × (s'.posts
          ≡ without_threads
              (filter_by
                (λ t. same t.board_id board_id)
                (chosen_threads is_pinned limit_mb total_bytes boards))
              s.posts)
      × (s'.content_control ≡ s.content_control)
unfolding enforce_global_quota lookup
enforce_global_quota_lem is_pinned limit_mb total_bytes boards b s h =
    let chosen = chosen_threads is_pinned limit_mb total_bytes boards in
    let (s', found, posts, rules) =
      apply_groups-Left b (by_board chosen []) boards 0 s (by_board-IsDict chosen [] tt) h in
    (
      s',
      found,
      posts
          ∙ ap (λ group. without_threads group s.posts)
              (group_in-by_board b chosen [] ∙ ap (λ g. g ++ of_board b chosen) (group_nil b)),
      rules,
    )
