-- ===== src/Store/Threads/Cap.antt =====
-- How many threads the limit of a board leaves.
use mathlib.Core.Path.{fun_ext}
use mathlib.Core.List.Permᴰ
use retiboard.Base.{
  ℕ, zero, suc, ◌-◌, ◌≤◌, max, ◌≡◌, refl, ap, sym, ◌∙◌, arith, leb, if◌then◌else◌, Bool, true,
  false, not, ◌&&◌, ◌||◌, String, same, List, [], ◌∷◌, length, take, length-take, length-map,
  length-filter_by-not, filter_by, filter_by-All, filter_by_unchanged, any_by, All, text_key,
  Bool-cases, inl, inr,
}
use retiboard.Base.Sets.{contains, IsSetOf}
use retiboard.Base.Sets.Parts.{
  contains-filter_by, filter_by-IsSetOf, contains-take, take-IsSetOf, length-filter_by-contains,
}
use retiboard.Base.Sort.{sort_by, length-sort_by}
use retiboard.Base.Sort.Perm.{sort_by-perm, any_by-Permᴰ, All-Permᴰ}
use retiboard.Store.Models.{PostMetadata}
use retiboard.Store.Lifecycle.Rows.{DistinctIds, DistinctIds-Permᴰ}
use retiboard.Store.Threads.{
  is_active, older, thread_ids, active_thread_ids, cull_ids, enforce_thread_cap, get_thread_count,
  mark_and_delete,
}
use retiboard.Store.Threads.Culled.{
  contains-thread_ids, doomed, doomed-split, marked, opens, delete_abandoned_threads-marked,
}

filter_by-All-ids :
    (p : PostMetadata) (test : PostMetadata → Bool) (posts : List PostMetadata)
    → All (λ q. same p.post_id q.post_id ≡ false) posts
    → All (λ q. same p.post_id q.post_id ≡ false) (filter_by test posts)
unfolding filter_by
filter_by-All-ids p test [] h = tt
filter_by-All-ids p test (q ∷ posts) h = elim (Bool-cases (test q)) [
  | inl e ↦ rw e (h.0, filter_by-All-ids p test posts h.1)
  | inr e ↦ rw e (filter_by-All-ids p test posts h.1)
]

pub filter_by-DistinctIds :
    (test : PostMetadata → Bool) (posts : List PostMetadata)
    → DistinctIds posts
    → DistinctIds (filter_by test posts)
unfolding filter_by
filter_by-DistinctIds test [] h = tt
filter_by-DistinctIds test (p ∷ posts) h = elim (Bool-cases (test p)) [
  | inl e ↦ rw e (filter_by-All-ids p test posts h.0, filter_by-DistinctIds test posts h.1)
  | inr e ↦ rw e (filter_by-DistinctIds test posts h.1)
]

abbrev AllActive : List PostMetadata → Type 0
AllActive = All (λ p. is_active p ≡ true)

no_second :
    (p : PostMetadata) (posts : List PostMetadata)
    → is_active p ≡ true
    → AllActive posts
    → All (λ q. same p.post_id q.post_id ≡ false) posts
    → contains p.thread_id (thread_ids posts) ≡ false
unfolding contains
no_second p [] a h k = refl
no_second p (q ∷ posts) a h k = ground (arith, no_second p posts a h.1 k.1)

thread_ids-IsSetOf :
    (posts : List PostMetadata) → AllActive posts → DistinctIds posts → IsSetOf (thread_ids posts)
thread_ids-IsSetOf [] a d = tt
thread_ids-IsSetOf (p ∷ posts) a d =
    (no_second p posts a.0 a.1 d.0, thread_ids-IsSetOf posts a.1 d.1)

contains-ids :
    (t : String) (posts : List PostMetadata)
    → contains t (thread_ids posts) ≡ any_by (λ p. same p.thread_id t) posts
unfolding contains any_by
contains-ids t [] = refl
contains-ids t (p ∷ posts) = ground (arith, contains-ids t posts)

-- The ids of a part of the threads, with those of some threads taken out.
without_ids :
    (ids : List String) (posts : List PostMetadata)
    → length (filter_by is_active (filter_by (λ p. not (contains p.thread_id ids)) posts))
      ≡ length (filter_by (λ t. not (contains t ids)) (thread_ids (filter_by is_active posts)))
unfolding filter_by
without_ids ids [] = refl
without_ids ids (p ∷ posts) = ground (arith, without_ids ids posts)

take-nil : (n : ℕ) → take {A = String} n [] ≡ []
take-nil zero = refl
take-nil (suc n) = refl

none_over : (m n : ℕ) → leb m n ≡ true → 0 ≡ m - n
none_over m n h = ground arith

guarded :
    (max_threads : ℕ) (active unpinned : List String)
    → (if leb (length active) max_threads || leb (length unpinned) 0
        then []
        else take (length active - max_threads) unpinned)
      ≡ take (length active - max_threads) unpinned
guarded max_threads active [] = elim (Bool-cases (leb (length active) max_threads)) [
  | inl e ↦ rw e (sym (take-nil (length active - max_threads)))
  | inr e ↦ rw e (sym (take-nil (length active - max_threads)))
]
guarded max_threads active (t ∷ ts) = elim (Bool-cases (leb (length active) max_threads)) [
  | inl e ↦ rw e (ap (λ n. take n (t ∷ ts)) (none_over (length active) max_threads e))
  | inr e ↦ rw e (ground arith)
]

module _ (posts : List PostMetadata) where
  active_thread_ids-IsSetOf : DistinctIds posts → IsSetOf (active_thread_ids posts)
  unfolding active_thread_ids
  active_thread_ids-IsSetOf d =
      let sorted = Permᴰ.symm (sort_by-perm older (filter_by is_active posts)) in
      thread_ids-IsSetOf (sort_by older (filter_by is_active posts))
        (All-Permᴰ (λ p. is_active p ≡ true) sorted (filter_by-All is_active posts))
        (DistinctIds-Permᴰ sorted (filter_by-DistinctIds is_active posts d))

  contains-active :
      (t : String)
      → contains t (active_thread_ids posts) ≡ contains t (thread_ids (filter_by is_active posts))
  unfolding active_thread_ids
  contains-active t =
      contains-ids t (sort_by older (filter_by is_active posts))
      ∙ any_by-Permᴰ (λ p. same p.thread_id t) (sort_by-perm older (filter_by is_active posts))
      ∙ sym (contains-ids t (filter_by is_active posts))

  length-active : length (active_thread_ids posts) ≡ get_thread_count posts
  unfolding active_thread_ids get_thread_count
  length-active =
      length-map (λ (p : PostMetadata). p.thread_id) (sort_by older (filter_by is_active posts))
      ∙ length-sort_by older (filter_by is_active posts)

active_opens :
    (t : String) (posts : List PostMetadata)
    → any_by (λ p. is_active p && same p.thread_id t) posts ≡ true
    → any_by (opens t) posts ≡ true
unfolding any_by
active_opens t [] h = h
active_opens t (p ∷ posts) h = ground (arith, active_opens t posts)

all_stay : (p : PostMetadata) → not (contains p.thread_id []) ≡ true
unfolding contains
all_stay p = refl

nothing_filtered :
    (test : PostMetadata → Bool)
    → ((p : PostMetadata) → test p ≡ true)
    → (posts : List PostMetadata) → All (λ p. test p ≡ true) posts
nothing_filtered test h [] = tt
nothing_filtered test h (p ∷ posts) = (h p, nothing_filtered test h posts)

culled :
    (posts : List PostMetadata) (ids : List String)
    → ((t : String) → contains t ids ≡ true → doomed ids posts t ≡ true)
    → doomed ids posts ≡ (λ t. contains t ids)
    → (mark_and_delete ids posts).0 ≡ filter_by (λ p. not (contains p.thread_id ids)) posts
unfolding mark_and_delete
culled posts [] covered same_ids = sym (
    filter_by_unchanged (λ p. not (contains p.thread_id [])) posts
      (nothing_filtered (λ p. not (contains p.thread_id [])) all_stay posts))
culled posts (t ∷ ts) covered same_ids =
    delete_abandoned_threads-marked (t ∷ ts) posts covered
    ∙ ap (λ gone. filter_by (λ (p : PostMetadata). not (gone p.thread_id)) posts) same_ids

module _ (max_threads : ℕ) (pinned : List String) (posts : List PostMetadata) where
  abbrev ids : List String
  ids = cull_ids max_threads pinned posts

  abbrev unpinned : List String
  unpinned = filter_by (λ t. not (contains t pinned)) (active_thread_ids posts)

  -- The guards only spare the statement: without them, nothing would be taken either.
  cull_ids_lem : ids ≡ take (length (active_thread_ids posts) - max_threads) unpinned
  unfolding cull_ids
  cull_ids_lem = guarded max_threads (active_thread_ids posts) unpinned

  cull_ids-active :
      (t : String) → contains t ids ≡ true → contains t (active_thread_ids posts) ≡ true
  cull_ids-active t h =
      let taken =
        contains-take t (length (active_thread_ids posts) - max_threads) unpinned
          (rw cull_ids_lem at h) in
      ground (
        arith,
        taken,
        contains-filter_by t (λ u. not (contains u pinned)) (active_thread_ids posts),
      )

  cull_ids-IsSetOf : DistinctIds posts → IsSetOf ids
  cull_ids-IsSetOf d = rw cull_ids_lem (
      take-IsSetOf (length (active_thread_ids posts) - max_threads) unpinned (
        filter_by-IsSetOf (λ t. not (contains t pinned)) (active_thread_ids posts)
          (active_thread_ids-IsSetOf posts d)))

  -- The number of threads is within the limit, or only pinned ones are left.
  cull-count :
      DistinctIds posts
      → length (filter_by (λ t. not (contains t ids)) (thread_ids (filter_by is_active posts)))
        ≤ max max_threads (length (filter_by (λ t. contains t pinned) (active_thread_ids posts)))
  unfolding get_thread_count
  cull-count d =
      let opened = thread_ids (filter_by is_active posts) in
      omega (
        arith,
        length-filter_by-contains ids opened (cull_ids-IsSetOf d)
            (λ t h. rw (← contains-active posts t) (cull_ids-active t h)),
        ap (length {A = String}) cull_ids_lem,
        length-take (length (active_thread_ids posts) - max_threads) unpinned,
        length-active posts,
        length-map (λ (p : PostMetadata). p.thread_id) (filter_by is_active posts),
        length-filter_by-not (λ t. contains t pinned) (active_thread_ids posts),
      )

  cull_ids-opens : (t : String) → contains t ids ≡ true → any_by (opens t) posts ≡ true
  cull_ids-opens t h = active_opens t posts (
      sym (contains-thread_ids t is_active posts)
      ∙ sym (contains-active posts t)
      ∙ cull_ids-active t h)

  -- The threads over the limit are deleted as a whole, where no thread is marked before.
  module _ (unmarked : (t : String) → any_by (marked t) posts ≡ false) where
    pub doomed-cull_ids : (t : String) → doomed ids posts t ≡ contains t ids
    doomed-cull_ids t = ground (arith, doomed-split posts ids t, unmarked t, cull_ids-opens t)

    pub enforce_thread_cap-rows :
        (enforce_thread_cap max_threads pinned posts).0
        ≡ filter_by (λ p. not (contains p.thread_id ids)) posts
    unfolding enforce_thread_cap
    enforce_thread_cap-rows =
        culled posts ids (λ t h. doomed-cull_ids t ∙ h) (fun_ext doomed-cull_ids)

    -- Then the number of threads is within the limit, or only pinned ones are left.
    pub enforce_thread_cap-count :
        DistinctIds posts
        → get_thread_count (enforce_thread_cap max_threads pinned posts).0
          ≤ max max_threads (length (filter_by (λ t. contains t pinned) (active_thread_ids posts)))
    unfolding get_thread_count
    enforce_thread_cap-count d = rw (enforce_thread_cap-rows, without_ids ids posts) (cull-count d)
