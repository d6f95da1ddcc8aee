-- ===== src/Store/Lifecycle/Refill.antt =====
-- What one more reply does to the time that a thread has left.
use mathlib.Core.List.{Permᴰ}
use mathlib.Core.List.Permᴰ
use retiboard.Base.{
  ℕ, ◌+◌, ◌≤◌, max, ◌≡◌, refl, sym, ap, subst, ◌∙◌, arith, if◌then◌else◌, false, not, ◌||◌, String,
  same, same_refl, List, [], ◌∷◌, ◌++◌, append-nil, All, some, Bool-cases, Option-cases, inl, inr,
}
use retiboard.Base.Sort.{insert_sorted, sort_by, sort_by-IsSorted}
use retiboard.Base.Sort.Perm.{sort_by-Permᴰ}
use retiboard.Store.Models.{PostMetadata, is_op}
use retiboard.Store.Lifecycle.{
  Lifecycle, ThreadRow, row_of, select_thread, row_before, op_row, extend_thread_expiry, bumped,
  replay, thread_lifecycle,
}
use retiboard.Store.Lifecycle.Rows.{
  row_before-IsStrict, DistinctIds, select_thread-Permᴰ, select_thread-Untied,
}
use retiboard.Store.Lifecycle.Settled.{lifecycle_of}
use retiboard.Store.Lifecycle.Bounds.{
  Ascending, IsSorted-Ascending, before-le, Between, bumped-Between, from_op,
}

module _ (start bump : ℕ) (t : String) (op : ℕ) where
  bumped_mono :
      (r : ThreadRow) (l m : Lifecycle)
      → l.thread_expiry ≤ m.thread_expiry
      → (bumped start bump op r l).thread_expiry ≤ (bumped start bump op r m).thread_expiry
  unfolding bumped extend_thread_expiry
  bumped_mono r l m h = omega arith

  -- More time before a row is at least as much after it.
  replay_mono :
      (rows : List ThreadRow) (l m : Lifecycle)
      → l.thread_expiry ≤ m.thread_expiry
      → (replay start bump t op rows l).thread_expiry
        ≤ (replay start bump t op rows m).thread_expiry
  unfolding replay
  replay_mono [] l m h = h
  replay_mono (r ∷ rows) l m h = elim (Bool-cases (same r.post_id t || not r.bump_flag)) [
    | inl e ↦ rw (e, replay) (replay_mono rows l m h)
    | inr e ↦
        rw (e, replay)
          (replay_mono rows (bumped start bump op r l) (bumped start bump op r m)
            (bumped_mono r l m h))
  ]

  -- What one row of the thread does to its lifecycle.
  abbrev counted : ThreadRow → Lifecycle → Lifecycle
  counted r l = if same r.post_id t || not r.bump_flag then l else bumped start bump op r l

  counted-Between :
      (r : ThreadRow) (l : Lifecycle)
      → l.thread_last_activity ≤ max r.timestamp op
      → l.thread_expiry ≤ l.thread_last_activity + start
      → Between start bump t op l (counted r l)
        × ((counted r l).thread_last_activity ≤ max r.timestamp op)
  counted-Between r l h k =
      let b = bumped-Between start bump t op r l h k in
      elim (Bool-cases (same r.post_id t || not r.bump_flag)) [
        | inl e ↦ rw e (omega arith)
        | inr e ↦ rw e (omega arith)
      ]

  counted_later :
      (m : Lifecycle) (s : ThreadRow) (rows : List ThreadRow)
      → m.thread_last_activity ≤ max s.timestamp op
      → All (λ x. s.timestamp ≤ x.timestamp) rows
      → All (λ x. m.thread_last_activity ≤ max x.timestamp op) rows
  counted_later m s [] h a = tt
  counted_later m s (x ∷ rows) h a = (omega arith, counted_later m s rows h a.1)

  -- One more row in its place among the others leaves the thread at least as much time.
  replay-insert_sorted-le :
      (r : ThreadRow) (rows : List ThreadRow) (l : Lifecycle)
      → Ascending rows
      → All (λ s. l.thread_last_activity ≤ max s.timestamp op) (r ∷ rows)
      → l.thread_expiry ≤ l.thread_last_activity + start
      → (replay start bump t op rows l).thread_expiry
        ≤ (replay start bump t op (insert_sorted row_before r rows) l).thread_expiry
  unfolding insert_sorted replay
  replay-insert_sorted-le r [] l a h k = (counted-Between r l h.0 k).0.0
  replay-insert_sorted-le r (s ∷ rows) l a h k = elim (Bool-cases (row_before s r)) [
    | inl e ↦
        let c = counted-Between s l h.1.0 k in
        rw (e, insert_sorted, replay)
          (replay-insert_sorted-le r rows (counted s l) a.1
            (counted_later (counted s l) s (r ∷ rows) c.1 (before-le s r e, a.0)) c.0.1)
    | inr e ↦
        rw (e, insert_sorted, replay)
          (replay_mono (s ∷ rows) l (counted r l) (counted-Between r l h.0 k).0.0)
  ]

op_row-insert_sorted_other :
    (t : String) (r : ThreadRow) (rows : List ThreadRow)
    → same r.post_id t ≡ false
    → op_row t (insert_sorted row_before r rows) ≡ op_row t rows
unfolding op_row insert_sorted
op_row-insert_sorted_other t r [] h = ground arith
op_row-insert_sorted_other t r (s ∷ rows) h = ground (arith, op_row-insert_sorted_other t r rows h)

-- The rows of the thread of a post that arrives.
arrived :
    (posts : List PostMetadata) (p : PostMetadata)
    → DistinctIds (p ∷ posts)
    → sort_by row_before (select_thread p.thread_id (posts ++ p ∷ []))
      ≡ insert_sorted row_before (row_of p) (sort_by row_before (select_thread p.thread_id posts))
unfolding select_thread sort_by
arrived posts p distinct =
    let moved =
      subst (λ qs. Permᴰ (posts ++ p ∷ []) (p ∷ qs)) (append-nil posts) (Permᴰ.middle p posts []) in
    let back = Permᴰ.symm moved in
    let rows = select_thread-Permᴰ p.thread_id back in
    let untied = select_thread-Untied p.thread_id (p ∷ posts) distinct in
    sym (sort_by-Permᴰ row_before row_before-IsStrict rows untied) ∙ rw (same_refl p.thread_id) refl

module _ (start bump : ℕ) where
  more_row :
      (r : ThreadRow) (rows : List ThreadRow) (t : String) (l : Lifecycle)
      → Ascending rows
      → same r.post_id t ≡ false
      → thread_lifecycle start bump t rows ≡ some l
      → (m : Lifecycle) × (thread_lifecycle start bump t (insert_sorted row_before r rows) ≡ some m)
        × (l.thread_expiry ≤ m.thread_expiry)
  unfolding thread_lifecycle
  more_row r rows t l a reply h = elim (Option-cases (op_row t rows)) [
    | inl e ↦ absurd (ground (arith, e, h))
    | inr (op, e) ↦
        let fresh : Lifecycle = record {
          thread_last_activity = op.timestamp;
          thread_expiry = op.timestamp + start;
        } in
        let found : some (replay start bump t op.timestamp rows fresh) ≡ some l =
          rw (e, thread_lifecycle) at h in
        let same_l : replay start bump t op.timestamp rows fresh ≡ l = ground (arith, found) in
        let longer =
          replay-insert_sorted-le start bump t op.timestamp r rows fresh a
            (from_op op.timestamp (r ∷ rows)) (omega arith) in
        (
          replay start bump t op.timestamp (insert_sorted row_before r rows) fresh,
          rw (op_row-insert_sorted_other t r rows reply, e, thread_lifecycle) refl,
          omega (arith, ap (λ (k : Lifecycle). k.thread_expiry) same_l, longer),
        )
  ]

  -- A reply that arrives leaves its thread at least the time that it had, whatever the time of the
  -- reply and whether it bumps the thread or not.
  pub lifecycle_of_reply :
      (posts : List PostMetadata) (p : PostMetadata) (l : Lifecycle)
      → DistinctIds (p ∷ posts)
      → is_op p ≡ false
      → lifecycle_of start bump posts p.thread_id ≡ some l
      → (m : Lifecycle) × (lifecycle_of start bump (posts ++ p ∷ []) p.thread_id ≡ some m)
        × (l.thread_expiry ≤ m.thread_expiry)
  lifecycle_of_reply posts p l distinct reply h =
      let t = p.thread_id in
      let rows = sort_by row_before (select_thread t posts) in
      let sorted =
        sort_by-IsSorted row_before row_before-IsStrict.asymmetric (select_thread t posts) in
      let (m, found, longer) =
        more_row (row_of p) rows t l (IsSorted-Ascending rows sorted) reply h in
      (m, ap (thread_lifecycle start bump t) (arrived posts p distinct) ∙ found, longer)
