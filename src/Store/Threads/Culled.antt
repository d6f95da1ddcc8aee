-- ===== src/Store/Threads/Culled.antt =====
-- Which rows are left after the deletion of the threads that are marked: all rows of some threads go,
-- and all others stay as they were.
use mathlib.Core.Path.{fun_ext}
use retiboard.Base.{
  ℕ, ◌≡◌, refl, ap, sym, ◌∙◌, arith, leb, Bool, true, not, ◌&&◌, ◌||◌, String, same, List, [], ◌∷◌,
  map, filter_by, any_by, text_key,
}
use retiboard.Base.Sets.{contains}
use retiboard.Store.Models.{PostMetadata, is_op}
use retiboard.Store.Threads.{
  is_active, mark_abandoned, thread_ids, expired_ids, mark_expired_threads, distinct, abandoned_ids,
  delete_threads_bulk, delete_abandoned_threads, blob_hashes,
}

contains-filter_by :
    (t : String) (test : String → Bool) (ts : List String)
    → contains t (filter_by test ts) ≡ (test t && contains t ts)
unfolding contains filter_by
contains-filter_by t test [] = ground arith
contains-filter_by t test (u ∷ ts) = ground (arith, contains-filter_by t test ts)

contains-distinct : (t : String) (ts : List String) → contains t (distinct ts) ≡ contains t ts
unfolding contains distinct
contains-distinct t [] = refl
contains-distinct t (u ∷ ts) =
    ground (arith, contains-filter_by t (λ v. not (same u v)) (distinct ts), contains-distinct t ts)

pub contains-thread_ids :
    (t : String) (test : PostMetadata → Bool) (posts : List PostMetadata)
    → contains t (thread_ids (filter_by test posts))
      ≡ any_by (λ p. test p && same p.thread_id t) posts
unfolding contains filter_by any_by
contains-thread_ids t test [] = refl
contains-thread_ids t test (p ∷ posts) = ground (arith, contains-thread_ids t test posts)

pub any_by-map {ℓ} :
    {A : Type ℓ} (test : A → Bool) (f : A → A) (xs : List A)
    → any_by test (map f xs) ≡ any_by (λ x. test (f x)) xs
unfolding any_by
any_by-map test f [] = refl
any_by-map test f (x ∷ xs) = ap (λ b. test (f x) || b) (any_by-map test f xs)

pub firsts {ℓ κ} :
    {A : Type ℓ} {B : Type κ} (f : A → B) (xs : List A)
    → map (λ (r : A × B). r.0) (map (λ x. (x, f x)) xs) ≡ xs
firsts f [] = refl
firsts f (x ∷ xs) = ap (◌∷◌ x) (firsts f xs)

module _ (ids : List String) (t : String) where
  -- The first post of the thread is marked as expired, or is about to be.
  abbrev is_doomed : PostMetadata → Bool
  is_doomed p = is_op p && same p.thread_id t && (p.is_abandoned || contains p.thread_id ids)

  marked_doomed :
      (p : PostMetadata)
      → ((mark_abandoned ids p).is_abandoned
          && is_op (mark_abandoned ids p)
          && same (mark_abandoned ids p).thread_id t)
        ≡ is_doomed p
  unfolding mark_abandoned
  marked_doomed p = ground arith

  pub contains-abandoned_ids :
      (posts : List PostMetadata)
      → contains t (abandoned_ids (map (mark_abandoned ids) posts)) ≡ any_by is_doomed posts
  unfolding abandoned_ids
  contains-abandoned_ids posts =
      contains-distinct t
        (thread_ids (filter_by (λ p. p.is_abandoned && is_op p) (map (mark_abandoned ids) posts)))
      ∙ contains-thread_ids t (λ p. p.is_abandoned && is_op p) (map (mark_abandoned ids) posts)
      ∙ any_by-map (λ p. p.is_abandoned && is_op p && same p.thread_id t) (mark_abandoned ids) posts
      ∙ ap (λ test. any_by test posts) (fun_ext marked_doomed)

-- A row that is only marked in threads that go leaves no trace.
filter_by-marked :
    (ids : List String) (gone : String → Bool)
    → ((t : String) → contains t ids ≡ true → gone t ≡ true)
    → (posts : List PostMetadata)
    → filter_by (λ p. not (gone p.thread_id)) (map (mark_abandoned ids) posts)
      ≡ filter_by (λ p. not (gone p.thread_id)) posts
unfolding filter_by mark_abandoned
filter_by-marked ids gone covered [] = refl
filter_by-marked ids gone covered (p ∷ posts) =
    ground (arith, covered p.thread_id, filter_by-marked ids gone covered posts)

module _ (ids : List String) (posts : List PostMetadata) where
  abbrev pub doomed : String → Bool
  doomed t = any_by (is_doomed ids t) posts

  -- Marked threads that are there are deleted as a whole, together with those that were marked before.
  pub delete_abandoned_threads-marked :
      ((t : String) → contains t ids ≡ true → doomed t ≡ true)
      → (delete_abandoned_threads (map (mark_abandoned ids) posts)).0
        ≡ filter_by (λ p. not (doomed p.thread_id)) posts
  unfolding delete_abandoned_threads delete_threads_bulk
  delete_abandoned_threads-marked covered =
      ap
        (λ gone.
          filter_by (λ (p : PostMetadata). not (gone p.thread_id)) (map (mark_abandoned ids) posts))
        (fun_ext λ t. contains-abandoned_ids ids t posts)
      ∙ filter_by-marked ids doomed covered posts

  -- The deletion names them.
  contains-deleted :
      (t : String)
      → contains t (map (λ r. r.0) (delete_abandoned_threads (map (mark_abandoned ids) posts)).1)
        ≡ doomed t
  unfolding delete_abandoned_threads
  contains-deleted t =
      ap (contains t) (
        firsts
          (λ u. blob_hashes (filter_by (λ p. same p.thread_id u) (map (mark_abandoned ids) posts)))
          (abandoned_ids (map (mark_abandoned ids) posts)))
      ∙ contains-abandoned_ids ids t posts

module _ (now : ℕ) (pinned : List String) where
  -- The thread is marked as expired, or its time is over and it is not pinned.
  abbrev pub is_due : String → PostMetadata → Bool
  is_due t p =
      is_op p
      && same p.thread_id t
      && (p.is_abandoned || (leb p.expiry_timestamp now && not (contains t pinned)))

  contains-expired_ids :
      (posts : List PostMetadata) (t : String)
      → contains t (expired_ids now pinned posts) ≡ (
          not (contains t pinned)
          && any_by (λ p. (is_active p && leb p.expiry_timestamp now) && same p.thread_id t) posts)
  unfolding expired_ids
  contains-expired_ids posts t =
      contains-filter_by t (λ u. not (contains u pinned))
        (thread_ids (filter_by (λ p. is_active p && leb p.expiry_timestamp now) posts))
      ∙ ap (λ b. not (contains t pinned) && b)
          (contains-thread_ids t (λ p. is_active p && leb p.expiry_timestamp now) posts)

module _ (t : String) where
  abbrev pub opens : PostMetadata → Bool
  opens p = is_op p && same p.thread_id t

  abbrev pub marked : PostMetadata → Bool
  marked p = opens p && p.is_abandoned

  split_doomed :
      (e : Bool) (posts : List PostMetadata)
      → any_by (λ p. is_op p && same p.thread_id t && (p.is_abandoned || e)) posts
        ≡ (any_by marked posts || (e && any_by opens posts))
  unfolding any_by
  split_doomed e [] = ground arith
  split_doomed e (p ∷ posts) = ground (arith, split_doomed e posts)

module _ (now : ℕ) (t : String) where
  abbrev over : PostMetadata → Bool
  over p = opens t p && leb p.expiry_timestamp now

  abbrev newly : PostMetadata → Bool
  newly p = (is_active p && leb p.expiry_timestamp now) && same p.thread_id t

  newly-opens :
      (posts : List PostMetadata)
      → (any_by newly posts && any_by (opens t) posts) ≡ any_by newly posts
  unfolding any_by
  newly-opens [] = refl
  newly-opens (p ∷ posts) = ground (arith, newly-opens posts)

  over-newly :
      (posts : List PostMetadata)
      → (any_by (marked t) posts || any_by over posts)
        ≡ (any_by (marked t) posts || any_by newly posts)
  unfolding any_by
  over-newly [] = refl
  over-newly (p ∷ posts) = ground (arith, over-newly posts)

  split_due :
      (kept : Bool) (posts : List PostMetadata)
      → any_by
          (λ p.
            is_op p
            && same p.thread_id t
            && (p.is_abandoned || (leb p.expiry_timestamp now && kept)))
          posts
        ≡ (any_by (marked t) posts || (kept && any_by over posts))
  unfolding any_by
  split_due kept [] = ground arith
  split_due kept (p ∷ posts) = ground (arith, split_due kept posts)

module _ (posts : List PostMetadata) where
  at_thread :
      (ids : List String) (t : String) (p : PostMetadata)
      → is_doomed ids t p ≡ (is_op p && same p.thread_id t && (p.is_abandoned || contains t ids))
  at_thread ids t p = ground arith

  pub doomed-split :
      (ids : List String) (t : String)
      → doomed ids posts t ≡ (any_by (marked t) posts || (contains t ids && any_by (opens t) posts))
  doomed-split ids t =
      ap (λ test. any_by test posts) (fun_ext (at_thread ids t))
      ∙ split_doomed t (contains t ids) posts

module _ (now : ℕ) (pinned : List String) (posts : List PostMetadata) where
  -- What is doomed once the expired threads are marked.
  pub doomed-expired_ids :
      (t : String)
      → doomed (expired_ids now pinned posts) posts t ≡ any_by (is_due now pinned t) posts
  doomed-expired_ids t =
      let ids = expired_ids now pinned posts in
      doomed-split posts ids t
      ∙ ground (
        arith,
        contains-expired_ids now pinned posts t,
        newly-opens now t posts,
        over-newly now t posts,
      )
      ∙ sym (split_due now t (not (contains t pinned)) posts)

  expired_ids-doomed :
      (t : String)
      → contains t (expired_ids now pinned posts) ≡ true
      → doomed (expired_ids now pinned posts) posts t ≡ true
  expired_ids-doomed t h = ground (
    arith,
    doomed-split posts (expired_ids now pinned posts) t,
    contains-expired_ids now pinned posts t,
    newly-opens now t posts,
  )

  -- After the expired threads are marked and deleted, exactly the threads that are due are gone.
  pub expired-deleted :
      (delete_abandoned_threads (mark_expired_threads now pinned posts).0).0
      ≡ filter_by (λ p. not (any_by (is_due now pinned p.thread_id) posts)) posts
  unfolding mark_expired_threads
  expired-deleted =
      delete_abandoned_threads-marked (expired_ids now pinned posts) posts expired_ids-doomed
      ∙ ap (λ gone. filter_by (λ (p : PostMetadata). not (gone p.thread_id)) posts)
          (fun_ext doomed-expired_ids)
