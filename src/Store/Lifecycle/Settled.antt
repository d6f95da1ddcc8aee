-- ===== src/Store/Lifecycle/Settled.antt =====
-- The rows that a set of posts ends with: each post as it arrived, but for the lifecycle of its thread.
use retiboard.Base.{
  ℕ, ◌≡◌, refl, arith, false, String, same, same_iff, same_sym, subst, List, [], ◌∷◌, ◌++◌, Option,
  none, some,
}
use retiboard.Base.{Option-cases, Bool-cases, inl, inr, ap, append-nil, ◌∙◌}
use mathlib.Core.Path.{fun_ext}
use mathlib.Core.List.{Permᴰ}
use retiboard.Base.Sort.{sort_by}
use retiboard.Base.Sort.Perm.{sort_by-Permᴰ}
use retiboard.Store.Models.{PostMetadata}
use retiboard.Store.Lifecycle.{
  Lifecycle, ThreadRow, row_of, select_thread, row_before, op_row, thread_lifecycle, updated_row,
}
use retiboard.Store.Lifecycle.Rows.{
  row_before-IsStrict, DistinctIds, select_thread-Untied, select_thread-append, select_thread-Permᴰ,
  op_row-sort_by, sort_by-op_row, op_row-append,
}

abbrev pub refresh : String → Option Lifecycle → PostMetadata → PostMetadata
refresh t none p = p
refresh t (some l) p = updated_row t l p

pub refresh_row :
    (t : String) (o : Option Lifecycle) (p : PostMetadata)
    → (row_of (refresh t o p) ≡ row_of p) × ((refresh t o p).thread_id ≡ p.thread_id)
unfolding updated_row
refresh_row t none p = (refl, refl)
refresh_row t (some l) p = ground arith

-- The latest lifecycle counts.
refresh_twice :
    (t : String) (l : Lifecycle) (o : Option Lifecycle) (p : PostMetadata)
    → updated_row t l (refresh t o p) ≡ updated_row t l p
unfolding updated_row
refresh_twice t l none p = refl
refresh_twice t l (some k) p = ground arith

-- A row of another thread stays as it is.
refresh_other :
    (t : String) (o : Option Lifecycle) (p : PostMetadata)
    → same p.thread_id t ≡ false
    → refresh t o p ≡ p
unfolding updated_row
refresh_other t none p h = refl
refresh_other t (some l) p h = rw h refl

module _ (start bump : ℕ) where
  abbrev pub lifecycle_of : List PostMetadata → String → Option Lifecycle
  lifecycle_of posts t = thread_lifecycle start bump t (sort_by row_before (select_thread t posts))

  -- A post with the lifecycle that these posts give its thread.
  unfoldable pub settled : List PostMetadata → PostMetadata → PostMetadata
  unfolding thread_lifecycle
  settled posts p = refresh p.thread_id (lifecycle_of posts p.thread_id) p

  pub settled_row :
      (posts : List PostMetadata) (p : PostMetadata)
      → (row_of (settled posts p) ≡ row_of p) × ((settled posts p).thread_id ≡ p.thread_id)
  unfolding settled
  settled_row posts p = refresh_row p.thread_id (lifecycle_of posts p.thread_id) p

  -- A thread has a lifecycle exactly if its first post is there.
  lifecycle_none :
      (rows : List ThreadRow) (t : String)
      → thread_lifecycle start bump t rows ≡ none
      → op_row t rows ≡ none
  unfolding thread_lifecycle
  lifecycle_none rows t h = ground arith

  none_lifecycle :
      (rows : List ThreadRow) (t : String)
      → op_row t rows ≡ none
      → thread_lifecycle start bump t rows ≡ none
  unfolding thread_lifecycle
  none_lifecycle rows t h = ground arith

  lifecycle_of-append :
      (posts more : List PostMetadata) (t : String)
      → lifecycle_of (posts ++ more) t ≡ none
      → lifecycle_of posts t ≡ none
  lifecycle_of-append posts more t h =
      let sorted = sort_by row_before (select_thread t (posts ++ more)) in
      let found = op_row-sort_by t (select_thread t (posts ++ more)) (lifecycle_none sorted t h) in
      none_lifecycle (sort_by row_before (select_thread t posts)) t (
        sort_by-op_row t (select_thread t posts) (
          op_row-append t (select_thread t posts) (select_thread t more)
            (rw (← select_thread-append t posts more) found)))

  -- A post of another thread changes nothing.
  lifecycle_of_other :
      (posts : List PostMetadata) (p : PostMetadata) (t : String)
      → same p.thread_id t ≡ false
      → lifecycle_of (posts ++ p ∷ []) t ≡ lifecycle_of posts t
  unfolding select_thread
  lifecycle_of_other posts p t h = rw (select_thread-append t posts (p ∷ []), h, append-nil) refl

  refresh_same :
      (posts : List PostMetadata) (p q : PostMetadata)
      → refresh q.thread_id (lifecycle_of (posts ++ p ∷ []) q.thread_id) (settled posts q)
        ≡ settled (posts ++ p ∷ []) q
  unfolding settled
  refresh_same posts p q = elim (Option-cases (lifecycle_of (posts ++ p ∷ []) q.thread_id)) [
    | inl e ↦ rw (e, lifecycle_of-append posts (p ∷ []) q.thread_id e) refl
    | inr (l, e) ↦ rw e (refresh_twice q.thread_id l (lifecycle_of posts q.thread_id) q)
  ]

  settled_other :
      (posts : List PostMetadata) (p q : PostMetadata)
      → same q.thread_id p.thread_id ≡ false
      → settled posts q ≡ settled (posts ++ p ∷ []) q
  unfolding settled
  settled_other posts p q h =
      rw (lifecycle_of_other posts p q.thread_id (same_sym q.thread_id p.thread_id h)) refl

  -- What the recomputation after the arrival of `p` makes of a row.
  pub refresh-settled :
      (posts : List PostMetadata) (p q : PostMetadata)
      → refresh p.thread_id (lifecycle_of (posts ++ p ∷ []) p.thread_id) (settled posts q)
        ≡ settled (posts ++ p ∷ []) q
  refresh-settled posts p q = elim (Bool-cases (same q.thread_id p.thread_id)) [
    | inl e ↦
        subst
          (λ t.
            refresh t (lifecycle_of (posts ++ p ∷ []) t) (settled posts q)
            ≡ settled (posts ++ p ∷ []) q)
          ((same_iff q.thread_id p.thread_id).0 e) (refresh_same posts p q)
    | inr e ↦
        refresh_other p.thread_id (lifecycle_of (posts ++ p ∷ []) p.thread_id) (settled posts q)
          (rw (settled_row posts q).1 e)
        ∙ settled_other posts p q e
  ]

  -- The rows of a thread depend on which posts there are, not on their order.
  pub settled-Permᴰ :
      {ps qs : List PostMetadata} → Permᴰ ps qs → DistinctIds ps → settled ps ≡ settled qs
  unfolding settled
  settled-Permᴰ {ps} {qs} perm distinct = fun_ext λ p.
      ap (λ rows. refresh p.thread_id (thread_lifecycle start bump p.thread_id rows) p)
        (sort_by-Permᴰ row_before row_before-IsStrict (select_thread-Permᴰ p.thread_id perm)
          (select_thread-Untied p.thread_id ps distinct))
