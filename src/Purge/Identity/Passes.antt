-- ===== src/Purge/Identity/Passes.antt =====
-- A banned identity has no posts left: the two passes of `purge_identity`.
use retiboard.Base.{
  ℕ, ◌≡◌, refl, sym, ap, subst, ◌∙◌, arith, true, false, not, ◌&&◌, ◌||◌, String, same, same_iff,
  same_refl, List, [], ◌∷◌, filter_by, All, Bool-cases, inl, inr, text_key,
}
use retiboard.Base.Sets.{contains}
use retiboard.Store.Models.{PostMetadata}
use retiboard.Purge.{PurgeState, PurgeResult, combined, purge_thread, purge_post}
use retiboard.Purge.Bans.{record_moderation_target, purge_threads, purge_posts}
use retiboard.Purge.Identity.{
  RowTest, found, found-filter_by, found-implied, posts_of, posts-purge_thread, found-purge_post,
  opens, purge_post-gone, found-deleted_thread,
}

contains-cons : (x : String) (xs : List String) → contains x (x ∷ xs) ≡ true
unfolding contains
contains-cons x xs = ground (arith, same_refl x)

-- The row itself, by its identifier and its thread.
abbrev pub at : PostMetadata → RowTest
at p i t u = same i p.post_id && same t p.thread_id

-- A post that opens no thread, if its thread is not among these.
abbrev pub Purgeable : List String → List PostMetadata → PostMetadata → Type 0
Purgeable ts posts p = contains p.thread_id ts ≡ false → found (opens p.post_id) posts ≡ false

abbrev pub Gone : List PostMetadata → PurgeState × PurgeResult → Type 0
Gone ps b = All (λ p. found (at p) (posts_of b) ≡ false) ps

-- Every row of the threads and the posts that are marked as purged is gone.
abbrev pub Done : List String → List String → List PostMetadata → Type 0
Done ts xs posts =
    ((t : String) → contains t ts ≡ true → found (λ i v u. same v t) posts ≡ false)
    × ((x : String) → contains x xs ≡ true → found (λ i v u. same i x) posts ≡ false)

skipped-gone :
    (ts xs : List String) (posts : List PostMetadata) (p : PostMetadata)
    → Done ts xs posts
    → (contains p.thread_id ts || contains p.post_id xs) ≡ true
    → found (at p) posts ≡ false
skipped-gone ts xs posts p done e = elim (Bool-cases (contains p.thread_id ts)) [
  | inl there ↦
      found-implied (λ i v u. same v p.thread_id) (at p) (λ i t u h. ground (arith, h)) posts
        (done.0 p.thread_id there)
  | inr absent ↦
      found-implied (λ i v u. same i p.post_id) (at p) (λ i t u h. ground (arith, h)) posts
        (done.1 p.post_id (ground (arith, e, absent)))
]

module _ (now : ℕ) (reason : String) where
  posts-record_moderation_target :
      (s : PurgeState) (n : ℕ) (scope target : String)
      → (record_moderation_target s n scope target).board.posts ≡ s.board.posts
  unfolding record_moderation_target
  posts-record_moderation_target s n scope target = ground arith

  -- Whatever was not there before the first pass is not there after it.
  pub found-purge_threads :
      (test : RowTest) (s : PurgeState) (n : ℕ) (ts : List String) (r : PurgeResult)
      → found test s.board.posts ≡ false
      → found test (posts_of (purge_threads now reason s n ts r)) ≡ false
  unfolding purge_threads
  found-purge_threads test s n [] r h = h
  found-purge_threads test s n (t ∷ ts) r h =
      let s' = purge_thread now reason s t in
      let next = record_moderation_target s'.0 n "thread" t in
      found-purge_threads test next n ts (combined r s'.1) (
        ap (found test)
          (posts-record_moderation_target s'.0 n "thread" t ∙ posts-purge_thread now reason s t)
        ∙ found-filter_by test (λ p. not (same p.thread_id t)) s.board.posts h)

  pub purge_threads-gone :
      (x : String) (s : PurgeState) (n : ℕ) (ts : List String) (r : PurgeResult)
      → contains x ts ≡ true
      → found (λ i t u. same t x) (posts_of (purge_threads now reason s n ts r)) ≡ false
  unfolding purge_threads contains
  purge_threads-gone x s n [] r h = cc
  purge_threads-gone x s n (t ∷ ts) r h =
      let s' = purge_thread now reason s t in
      let next = record_moderation_target s'.0 n "thread" t in
      elim (Bool-cases (same t x)) [
        | inr other ↦ purge_threads-gone x next n ts (combined r s'.1) (ground (arith, h, other))
        | inl this ↦
            found-purge_threads (λ i v u. same v x) next n ts (combined r s'.1)
              (ap (found (λ i v u. same v x)) (
                  posts-record_moderation_target s'.0 n "thread" t
                  ∙ posts-purge_thread now reason s t)
                ∙ subst
                    (λ y.
                      found (λ i v u. same v y)
                        (filter_by (λ p. not (same p.thread_id t)) s.board.posts)
                      ≡ false)
                    ((same_iff t x).0 this) (found-deleted_thread t s.board.posts))
      ]

  -- Nor is it there after the second pass.
  pub found-purge_posts :
      (test : RowTest) (s : PurgeState) (n : ℕ) (ts xs : List String) (ps : List PostMetadata)
      (r : PurgeResult)
      → found test s.board.posts ≡ false
      → found test (posts_of (purge_posts now reason s n ts xs ps r)) ≡ false
  unfolding purge_posts
  found-purge_posts test s n ts xs [] r h = h
  found-purge_posts test s n ts xs (p ∷ ps) r h =
      let s' = purge_post now reason s p.post_id in
      let next = record_moderation_target s'.0 n "post" p.post_id in
      elim (Bool-cases (contains p.thread_id ts || contains p.post_id xs)) [
        | inl skip ↦ rw (skip, purge_posts) (found-purge_posts test s n ts xs ps r h)
        | inr go ↦
            rw (go, purge_posts)
              (found-purge_posts test next n ts (p.post_id ∷ xs) ps (combined r s'.1) (
                ap (found test) (posts-record_moderation_target s'.0 n "post" p.post_id)
                ∙ found-purge_post now reason test s p.post_id h))
      ]

  abbrev after_post : PurgeState → ℕ → PostMetadata → PurgeState
  after_post s n p =
      record_moderation_target (purge_post now reason s p.post_id).0 n "post" p.post_id

  found-after_post :
      (test : RowTest) (s : PurgeState) (n : ℕ) (p : PostMetadata)
      → found test s.board.posts ≡ false
      → found test (after_post s n p).board.posts ≡ false
  found-after_post test s n p h =
      ap (found test)
        (posts-record_moderation_target (purge_post now reason s p.post_id).0 n "post" p.post_id)
      ∙ found-purge_post now reason test s p.post_id h

  Purgeable-after_post :
      (ts : List String) (s : PurgeState) (n : ℕ) (p : PostMetadata) (ps : List PostMetadata)
      → All (Purgeable ts s.board.posts) ps
      → All (Purgeable ts (after_post s n p).board.posts) ps
  Purgeable-after_post ts s n p [] ok = tt
  Purgeable-after_post ts s n p (q ∷ ps) ok = (
    λ absent. found-after_post (opens q.post_id) s n p (ok.0 absent),
    Purgeable-after_post ts s n p ps ok.1,
  )

  purge_posts_skip :
      (s : PurgeState) (n : ℕ) (ts xs : List String) (p : PostMetadata) (ps : List PostMetadata)
      (r : PurgeResult)
      → (contains p.thread_id ts || contains p.post_id xs) ≡ true
      → purge_posts now reason s n ts xs (p ∷ ps) r ≡ purge_posts now reason s n ts xs ps r
  unfolding purge_posts
  purge_posts_skip s n ts xs p ps r e = rw (e, purge_posts) refl

  purge_posts_go :
      (s : PurgeState) (n : ℕ) (ts xs : List String) (p : PostMetadata) (ps : List PostMetadata)
      (r : PurgeResult)
      → (contains p.thread_id ts || contains p.post_id xs) ≡ false
      → purge_posts now reason s n ts xs (p ∷ ps) r
        ≡ purge_posts now reason
            (after_post s n p)
            n
            ts
            (p.post_id ∷ xs)
            ps
            (combined r (purge_post now reason s p.post_id).1)
  unfolding purge_posts
  purge_posts_go s n ts xs p ps r e = rw (e, purge_posts) refl

  Done-after_post :
      (ts xs : List String) (s : PurgeState) (n : ℕ) (p : PostMetadata)
      → Done ts xs s.board.posts
      → found (opens p.post_id) s.board.posts ≡ false
      → Done ts (p.post_id ∷ xs) (after_post s n p).board.posts
  unfolding contains
  Done-after_post ts xs s n p done h = (
    λ t e. found-after_post (λ i v u. same v t) s n p (done.0 t e),
    λ x e. elim (Bool-cases (same p.post_id x)) [
      | inl this ↦
          subst (λ y. found (λ i v u. same i y) (after_post s n p).board.posts ≡ false)
            ((same_iff p.post_id x).0 this)
            (ap (found (λ i v u. same i p.post_id)) (
                posts-record_moderation_target (purge_post now reason s p.post_id).0 n "post"
                  p.post_id)
              ∙ purge_post-gone now reason s p.post_id h)
      | inr other ↦ found-after_post (λ i v u. same i x) s n p (done.1 x (ground (arith, e, other)))
    ],
  )

  pub purge_posts-Gone :
      (s : PurgeState) (n : ℕ) (ts xs : List String) (ps : List PostMetadata) (r : PurgeResult)
      → Done ts xs s.board.posts
      → All (Purgeable ts s.board.posts) ps
      → Gone ps (purge_posts now reason s n ts xs ps r)
  purge_posts-Gone s n ts xs [] r done ok = tt
  purge_posts-Gone s n ts xs (p ∷ ps) r done ok =
      elim (Bool-cases (contains p.thread_id ts || contains p.post_id xs)) [
        | inl skip ↦ subst (Gone (p ∷ ps)) (sym (purge_posts_skip s n ts xs p ps r skip)) (
          found-purge_posts (at p) s n ts xs ps r (skipped-gone ts xs s.board.posts p done skip),
          purge_posts-Gone s n ts xs ps r done ok.1,
        )
        | inr go ↦
            let s' = after_post s n p in
            let r' = combined r (purge_post now reason s p.post_id).1 in
            let done' = Done-after_post ts xs s n p done (ok.0 (ground (arith, go))) in
            subst (Gone (p ∷ ps)) (sym (purge_posts_go s n ts xs p ps r go)) (
              found-purge_posts (at p) s' n ts (p.post_id ∷ xs) ps r' (
                  skipped-gone ts (p.post_id ∷ xs) s'.board.posts p done'
                    (ground (arith, contains-cons p.post_id xs))),
              purge_posts-Gone s' n ts (p.post_id ∷ xs) ps r' done'
                  (Purgeable-after_post ts s n p ps ok.1),
            )
      ]
