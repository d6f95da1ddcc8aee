-- ===== src/Store/Lifecycle/Bounds.antt =====
-- Within which times a thread ends.
use retiboard.Base.{
  ℕ, ◌+◌, ◌≤◌, max, ◌≡◌, sym, subst, arith, true, false, not, ◌||◌, String, same, List, [], ◌∷◌,
  All, some, Bool-cases, Option-cases, inl, inr,
}
use retiboard.Base.Sort.{sort_by, IsSorted, sort_by-IsSorted}
use retiboard.Store.Models.{PostMetadata}
use retiboard.Store.Lifecycle.{
  Lifecycle, ThreadRow, select_thread, row_before, op_row, extend_thread_expiry, bumped, replay,
  thread_lifecycle,
}
use retiboard.Store.Lifecycle.Rows.{row_before-IsStrict}
use retiboard.Store.Lifecycle.Settled.{lifecycle_of}

-- The rows stand in the order of their times.
abbrev pub Ascending : List ThreadRow → Type 0
Ascending [] = Unit
Ascending (r ∷ rows) = All (λ s. r.timestamp ≤ s.timestamp) rows × Ascending rows

later_than :
    (m n : ℕ) (rows : List ThreadRow)
    → m ≤ n
    → All (λ s. n ≤ s.timestamp) rows
    → All (λ s. m ≤ s.timestamp) rows
later_than m n [] h a = tt
later_than m n (r ∷ rows) h a = (omega arith, later_than m n rows h a.1)

not_before : (r s : ThreadRow) → row_before s r ≡ false → r.timestamp ≤ s.timestamp
unfolding row_before
not_before r s h = ground arith

pub before-le : (r s : ThreadRow) → row_before r s ≡ true → r.timestamp ≤ s.timestamp
unfolding row_before
before-le r s h = ground arith

pub IsSorted-Ascending : (rows : List ThreadRow) → IsSorted row_before rows → Ascending rows
IsSorted-Ascending [] h = tt
IsSorted-Ascending (r ∷ []) h = (tt, tt)
IsSorted-Ascending (r ∷ s ∷ rows) h =
    let rest = IsSorted-Ascending (s ∷ rows) h.1 in
    let first = not_before r s h.0 in
    ((first, later_than r.timestamp s.timestamp rows first rest.0), rest)

pub from_op : (op : ℕ) (rows : List ThreadRow) → All (λ s. op ≤ max s.timestamp op) rows
from_op op [] = tt
from_op op (r ∷ rows) = (omega arith, from_op op rows)

module _ (start bump : ℕ) (t : String) (op_timestamp : ℕ) where
  -- The expiry lies within a full time to live from the last activity, and it has not gone back.
  abbrev pub Between : Lifecycle → Lifecycle → Type 0
  Between l m =
      (l.thread_expiry ≤ m.thread_expiry)
      × (m.thread_expiry ≤ m.thread_last_activity + start)
      × (l.thread_last_activity ≤ m.thread_last_activity)

  pub bumped-Between :
      (r : ThreadRow) (l : Lifecycle)
      → l.thread_last_activity ≤ max r.timestamp op_timestamp
      → l.thread_expiry ≤ l.thread_last_activity + start
      → Between l (bumped start bump op_timestamp r l)
        × ((bumped start bump op_timestamp r l).thread_last_activity ≡ max r.timestamp op_timestamp)
  unfolding bumped extend_thread_expiry
  bumped-Between r l h k = omega arith

  later_rows :
      (r : ThreadRow) (rows : List ThreadRow)
      → All (λ s. r.timestamp ≤ s.timestamp) rows
      → All (λ s. max r.timestamp op_timestamp ≤ max s.timestamp op_timestamp) rows
  later_rows r [] h = tt
  later_rows r (s ∷ rows) h = (omega arith, later_rows r rows h.1)

  replay-Between :
      (rows : List ThreadRow) (l : Lifecycle)
      → Ascending rows
      → All (λ s. l.thread_last_activity ≤ max s.timestamp op_timestamp) rows
      → l.thread_expiry ≤ l.thread_last_activity + start
      → Between l (replay start bump t op_timestamp rows l)
  unfolding replay
  replay-Between [] l a h k = omega arith
  replay-Between (r ∷ rows) l a h k = elim (Bool-cases (same r.post_id t || not r.bump_flag)) [
    | inl e ↦ rw (e, replay) (replay-Between rows l a.1 h.1 k)
    | inr e ↦
        let next = bumped start bump op_timestamp r l in
        let b = bumped-Between r l h.0 k in
        let later =
          subst (λ n. All (λ s. n ≤ max s.timestamp op_timestamp) rows) (sym b.1)
            (later_rows r rows a.0) in
        let rest = replay-Between rows next a.1 later b.0.1 in rw (e, replay) (omega arith)
  ]

module _ (start bump : ℕ) where
  abbrev Bounded : ThreadRow → Lifecycle → Type 0
  Bounded op l =
      (op.timestamp + start ≤ l.thread_expiry)
      × (l.thread_expiry ≤ l.thread_last_activity + start)
      × (op.timestamp ≤ l.thread_last_activity)

  rows_bounds :
      (rows : List ThreadRow) (t : String) (l : Lifecycle)
      → Ascending rows
      → thread_lifecycle start bump t rows ≡ some l
      → (op : ThreadRow) × (op_row t rows ≡ some op) × Bounded op l
  unfolding thread_lifecycle
  rows_bounds rows t l a h = elim (Option-cases (op_row t rows)) [
    | inl e ↦ absurd (ground (arith, e, h))
    | inr (op, e) ↦
        let fresh : Lifecycle = record {
          thread_last_activity = op.timestamp;
          thread_expiry = op.timestamp + start;
        } in
        let found : some (replay start bump t op.timestamp rows fresh) ≡ some l =
          rw (e, thread_lifecycle) at h in
        let between =
          replay-Between start bump t op.timestamp rows fresh a (from_op op.timestamp rows)
            (omega arith) in
        let same_l : replay start bump t op.timestamp rows fresh ≡ l = ground (arith, found) in
        (op, e, subst (Bounded op) same_l (omega arith))
  ]

  -- A thread whose first post is there has at least its full time to live from that post on, and at
  -- most as much from its last activity on, which is not before the first post.
  pub lifecycle_of_bounds :
      (posts : List PostMetadata) (t : String) (l : Lifecycle)
      → lifecycle_of start bump posts t ≡ some l
      → (op : ThreadRow) × (op_row t (sort_by row_before (select_thread t posts)) ≡ some op)
        × (op.timestamp + start ≤ l.thread_expiry)
        × (l.thread_expiry ≤ l.thread_last_activity + start)
        × (op.timestamp ≤ l.thread_last_activity)
  lifecycle_of_bounds posts t l h =
      let rows = sort_by row_before (select_thread t posts) in
      let sorted =
        sort_by-IsSorted row_before row_before-IsStrict.asymmetric (select_thread t posts) in
      let (op, found, bounds) = rows_bounds rows t l (IsSorted-Ascending rows sorted) h in
      (op, found, bounds.0, bounds.1, bounds.2)
