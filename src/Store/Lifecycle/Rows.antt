-- ===== src/Store/Lifecycle/Rows.antt =====
-- The rows of a thread: what selects them, and that their order ties no two of them.
use retiboard.Base.{
  ◌≡◌, refl, arith, true, false, String, same, same_sym, List, [], ◌∷◌, ◌++◌, map, All, none,
  Bool-cases, inl, inr,
}
use mathlib.Core.Path.{subst}
use mathlib.Core.List.{Permᴰ}
use mathlib.Core.List.Permᴰ
use retiboard.Base.Sort.{insert_sorted, sort_by}
use retiboard.Base.Sort.Perm.{IsStrict, Ordered, Untied, All-Permᴰ}
use retiboard.Base.TextOrder.{text_before-asymmetric, text_before-transitive, text_before-total}
use retiboard.Store.Models.{PostMetadata}
use retiboard.Store.Lifecycle.{ThreadRow, row_of, select_thread, row_before, op_row}

row_before-asymmetric : (r s : ThreadRow) → row_before r s ≡ true → row_before s r ≡ false
unfolding row_before
row_before-asymmetric r s h = ground (arith, text_before-asymmetric r.post_id s.post_id)

row_before-transitive :
    (r s t : ThreadRow) → row_before r s ≡ true → row_before s t ≡ true → row_before r t ≡ true
unfolding row_before
row_before-transitive r s t h k =
    ground (arith, text_before-transitive r.post_id s.post_id t.post_id)

pub row_before-IsStrict : IsStrict row_before
row_before-IsStrict = record {
  asymmetric = row_before-asymmetric;
  transitive = row_before-transitive;
}

-- Two rows with different identifiers are not tied.
row_before-Ordered : (r s : ThreadRow) → same r.post_id s.post_id ≡ false → Ordered row_before r s
unfolding row_before
row_before-Ordered r s h = ground (
  arith,
  text_before-total r.post_id s.post_id,
  text_before-asymmetric r.post_id s.post_id,
  text_before-asymmetric s.post_id r.post_id,
)

-- No two posts have the same identifier.
abbrev pub DistinctIds : List PostMetadata → Type 0
DistinctIds [] = Unit
DistinctIds (p ∷ posts) = All (λ q. same p.post_id q.post_id ≡ false) posts × DistinctIds posts

pub DistinctIds-Permᴰ : {ps qs : List PostMetadata} → Permᴰ ps qs → DistinctIds ps → DistinctIds qs
DistinctIds-Permᴰ Permᴰ.nil d = tt
DistinctIds-Permᴰ (Permᴰ.cons {a = a} {l₂ = m} e p) d = (
  subst (λ (x : PostMetadata). All (λ q. same x.post_id q.post_id ≡ false) m) e
      (All-Permᴰ (λ q. same a.post_id q.post_id ≡ false) p d.0),
  DistinctIds-Permᴰ p d.1,
)
DistinctIds-Permᴰ (Permᴰ.swap {a = a} {b = b} {b' = b'} {l = l} e f) d =
    subst (λ x. DistinctIds (x ∷ b' ∷ l)) f
      (subst (λ x. DistinctIds (b ∷ x ∷ l)) e
        ((same_sym a.post_id b.post_id d.0.0, d.1.0), (d.0.1, d.1.1)))
DistinctIds-Permᴰ (Permᴰ.trans p q) d = DistinctIds-Permᴰ q (DistinctIds-Permᴰ p d)

module _ (thread_id : String) where
  select_thread-All :
      (p : PostMetadata) (posts : List PostMetadata)
      → All (λ q. same p.post_id q.post_id ≡ false) posts
      → All (Ordered row_before (row_of p)) (select_thread thread_id posts)
  unfolding select_thread
  select_thread-All p [] h = tt
  select_thread-All p (q ∷ posts) h = elim (Bool-cases (same q.thread_id thread_id)) [
    | inl e ↦ rw e (row_before-Ordered (row_of p) (row_of q) h.0, select_thread-All p posts h.1)
    | inr e ↦ rw e (select_thread-All p posts h.1)
  ]

  pub select_thread-Untied :
      (posts : List PostMetadata)
      → DistinctIds posts
      → Untied row_before (select_thread thread_id posts)
  unfolding select_thread
  select_thread-Untied [] h = tt
  select_thread-Untied (p ∷ posts) h = elim (Bool-cases (same p.thread_id thread_id)) [
    | inl e ↦ rw e (select_thread-All p posts h.0, select_thread-Untied posts h.1)
    | inr e ↦ rw e (select_thread-Untied posts h.1)
  ]

  pub select_thread-append :
      (ps qs : List PostMetadata)
      → select_thread thread_id (ps ++ qs)
        ≡ select_thread thread_id ps ++ select_thread thread_id qs
  unfolding select_thread
  select_thread-append [] qs = refl
  select_thread-append (p ∷ ps) qs = ground (arith, select_thread-append ps qs)

  -- A change of other columns does not change the rows.
  pub select_thread-map :
      (f : PostMetadata → PostMetadata)
      → ((p : PostMetadata) → (row_of (f p) ≡ row_of p) × ((f p).thread_id ≡ p.thread_id))
      → (posts : List PostMetadata)
      → select_thread thread_id (map f posts) ≡ select_thread thread_id posts
  unfolding select_thread
  select_thread-map f same_row [] = refl
  select_thread-map f same_row (p ∷ posts) =
      rw ((same_row p).0, (same_row p).1, select_thread-map f same_row posts)

  select_thread-cons :
      (p : PostMetadata) (ps qs : List PostMetadata)
      → Permᴰ (select_thread thread_id ps) (select_thread thread_id qs)
      → Permᴰ (select_thread thread_id (p ∷ ps)) (select_thread thread_id (p ∷ qs))
  unfolding select_thread
  select_thread-cons p ps qs h = elim (Bool-cases (same p.thread_id thread_id)) [
    | inl e ↦ rw e (Permᴰ.cons refl h)
    | inr e ↦ rw e h
  ]

  select_thread_swap :
      (p q : PostMetadata) (posts : List PostMetadata)
      → Permᴰ (select_thread thread_id (p ∷ q ∷ posts)) (select_thread thread_id (q ∷ p ∷ posts))
  unfolding select_thread
  select_thread_swap p q posts = elim (Bool-cases (same p.thread_id thread_id)) [
    | inl e ↦ elim (Bool-cases (same q.thread_id thread_id)) [
      | inl f ↦ rw (e, f) (Permᴰ.swap refl refl)
      | inr f ↦ rw (e, f) (Permᴰ.refl (row_of p ∷ select_thread thread_id posts))
    ]
    | inr e ↦ elim (Bool-cases (same q.thread_id thread_id)) [
      | inl f ↦ rw (e, f) (Permᴰ.refl (row_of q ∷ select_thread thread_id posts))
      | inr f ↦ rw (e, f) (Permᴰ.refl (select_thread thread_id posts))
    ]
  ]

  pub select_thread-Permᴰ :
      {ps qs : List PostMetadata}
      → Permᴰ ps qs
      → Permᴰ (select_thread thread_id ps) (select_thread thread_id qs)
  unfolding select_thread
  select_thread-Permᴰ Permᴰ.nil = Permᴰ.nil
  select_thread-Permᴰ (Permᴰ.cons {a = a} {l₁ = l} {l₂ = m} e p) =
      subst (λ b. Permᴰ (select_thread thread_id (a ∷ l)) (select_thread thread_id (b ∷ m))) e
        (select_thread-cons a l m (select_thread-Permᴰ p))
  select_thread-Permᴰ (Permᴰ.swap {a = a} {b = b} {b' = b'} {l = l} e f) =
      subst
        (λ x. Permᴰ (select_thread thread_id (a ∷ b ∷ l)) (select_thread thread_id (x ∷ b' ∷ l))) f
        (subst
          (λ x. Permᴰ (select_thread thread_id (a ∷ b ∷ l)) (select_thread thread_id (b ∷ x ∷ l))) e
          (select_thread_swap a b l))
  select_thread-Permᴰ (Permᴰ.trans p q) =
      Permᴰ.trans (select_thread-Permᴰ p) (select_thread-Permᴰ q)

  -- The first post of a thread is found after sorting exactly if it was there.
  op_row-insert_sorted :
      (r : ThreadRow) (rows : List ThreadRow)
      → op_row thread_id (insert_sorted row_before r rows) ≡ none
      → (op_row thread_id rows ≡ none) × (same r.post_id thread_id ≡ false)
  unfolding op_row insert_sorted
  op_row-insert_sorted r [] h = ground arith
  op_row-insert_sorted r (s ∷ rows) h = ground (arith, op_row-insert_sorted r rows)

  insert_sorted-op_row :
      (r : ThreadRow) (rows : List ThreadRow)
      → op_row thread_id rows ≡ none
      → same r.post_id thread_id ≡ false
      → op_row thread_id (insert_sorted row_before r rows) ≡ none
  unfolding op_row insert_sorted
  insert_sorted-op_row r [] h k = ground arith
  insert_sorted-op_row r (s ∷ rows) h k = ground (arith, insert_sorted-op_row r rows)

  pub op_row-sort_by :
      (rows : List ThreadRow)
      → op_row thread_id (sort_by row_before rows) ≡ none
      → op_row thread_id rows ≡ none
  unfolding op_row sort_by
  op_row-sort_by [] h = refl
  op_row-sort_by (r ∷ rows) h =
      ground (arith, op_row-insert_sorted r (sort_by row_before rows) h, op_row-sort_by rows)

  pub sort_by-op_row :
      (rows : List ThreadRow)
      → op_row thread_id rows ≡ none
      → op_row thread_id (sort_by row_before rows) ≡ none
  unfolding op_row sort_by
  sort_by-op_row [] h = refl
  sort_by-op_row (r ∷ rows) h =
      ground (arith, insert_sorted-op_row r (sort_by row_before rows), sort_by-op_row rows)

  pub op_row-append :
      (rs ss : List ThreadRow) → op_row thread_id (rs ++ ss) ≡ none → op_row thread_id rs ≡ none
  unfolding op_row
  op_row-append [] ss h = refl
  op_row-append (r ∷ rs) ss h = ground (arith, op_row-append rs ss)
