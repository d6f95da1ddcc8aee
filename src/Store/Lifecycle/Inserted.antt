-- ===== src/Store/Lifecycle/Inserted.antt =====
-- Which posts a table has after `insert_post`.
use retiboard.Base.{
  ℕ, ◌≡◌, refl, sym, ap, ◌∙◌, arith, false, ◌||◌, String, same, List, [], ◌∷◌, ◌++◌, map, any_by,
  Option, some, Bool-cases, inl, inr,
}
use retiboard.Store.Models.{Board, PostMetadata}
use retiboard.Store.Lifecycle.{
  row_of, recompute_in, post_exists, insert_post, ttl_or, default_ttl_seconds,
  default_bump_decay_rate,
}
use retiboard.Store.Lifecycle.Settled.{lifecycle_of, refresh, refresh_row}
use retiboard.Store.Lifecycle.Arrival.{recompute_in_lem}

post_exists-map :
    (x : String) (f : PostMetadata → PostMetadata)
    → ((p : PostMetadata) → row_of (f p) ≡ row_of p)
    → (posts : List PostMetadata) → post_exists x (map f posts) ≡ post_exists x posts
unfolding post_exists any_by
post_exists-map x f h [] = refl
post_exists-map x f h (p ∷ posts) = rw (ap (λ r. r.post_id) (h p), post_exists-map x f h posts) refl

post_exists-recompute_in :
    (x : String) (start bump : ℕ) (t : String) (posts : List PostMetadata)
    → post_exists x (recompute_in start bump t posts) ≡ post_exists x posts
post_exists-recompute_in x start bump t posts =
    ap (post_exists x) (recompute_in_lem start bump t posts)
    ∙ post_exists-map x (refresh t (lifecycle_of start bump posts t))
        (λ p. (refresh_row t (lifecycle_of start bump posts t) p).0) posts

post_exists-append :
    (x : String) (posts : List PostMetadata) (p : PostMetadata)
    → post_exists x (posts ++ p ∷ []) ≡ (post_exists x posts || same p.post_id x)
unfolding post_exists any_by
post_exists-append x [] p = ground arith
post_exists-append x (q ∷ posts) p = ground (arith, post_exists-append x posts p)

-- A post that is inserted is new, and it is there afterwards beside those that were.
pub post_exists-insert_post :
    (config : Option Board) (posts posts' : List PostMetadata) (p : PostMetadata)
    (start bump : Option ℕ)
    → insert_post config posts p start bump ≡ some posts'
    → (post_exists p.post_id posts ≡ false)
      × ((x : String) → post_exists x posts' ≡ (post_exists x posts || same p.post_id x))
unfolding insert_post
post_exists-insert_post config posts posts' p start bump h =
    elim (Bool-cases (post_exists p.post_id posts)) [
      | inl e ↦ absurd (ground (arith, e, h))
      | inr e ↦
          let ttl = ttl_or start config (λ b. b.default_ttl_seconds) default_ttl_seconds in
          let refill = ttl_or bump config (λ b. b.bump_decay_rate) default_bump_decay_rate in
          let table : recompute_in ttl refill p.thread_id (posts ++ p ∷ []) ≡ posts' =
            ground (arith, e, h) in
          (
            e,
            λ x.
                ap (post_exists x) (sym table)
                ∙ post_exists-recompute_in x ttl refill p.thread_id (posts ++ p ∷ [])
                ∙ post_exists-append x posts p,
          )
    ]

-- Nor does an insertion put a row into another thread.
any_by-refresh :
    (t : String) (f : PostMetadata → PostMetadata)
    → ((p : PostMetadata) → (f p).thread_id ≡ p.thread_id)
    → (posts : List PostMetadata)
    → any_by (λ p. same p.thread_id t) (map f posts) ≡ any_by (λ p. same p.thread_id t) posts
unfolding any_by
any_by-refresh t f h [] = refl
any_by-refresh t f h (p ∷ posts) = rw (h p, any_by-refresh t f h posts) refl

in_thread-recompute_in :
    (t : String) (start bump : ℕ) (u : String) (posts : List PostMetadata)
    → any_by (λ p. same p.thread_id t) (recompute_in start bump u posts)
      ≡ any_by (λ p. same p.thread_id t) posts
in_thread-recompute_in t start bump u posts =
    ap (any_by (λ p. same p.thread_id t)) (recompute_in_lem start bump u posts)
    ∙ any_by-refresh t (refresh u (lifecycle_of start bump posts u))
        (λ p. (refresh_row u (lifecycle_of start bump posts u) p).1) posts

in_thread-append :
    (t : String) (posts : List PostMetadata) (p : PostMetadata)
    → any_by (λ q. same q.thread_id t) (posts ++ p ∷ [])
      ≡ (any_by (λ q. same q.thread_id t) posts || same p.thread_id t)
unfolding any_by
in_thread-append t [] p = ground arith
in_thread-append t (q ∷ posts) p = ground (arith, in_thread-append t posts p)

pub in_thread-insert_post :
    (config : Option Board) (posts posts' : List PostMetadata) (p : PostMetadata)
    (start bump : Option ℕ) (t : String)
    → insert_post config posts p start bump ≡ some posts'
    → any_by (λ q. same q.thread_id t) posts'
      ≡ (any_by (λ q. same q.thread_id t) posts || same p.thread_id t)
unfolding insert_post
in_thread-insert_post config posts posts' p start bump t h =
    elim (Bool-cases (post_exists p.post_id posts)) [
      | inl e ↦ absurd (ground (arith, e, h))
      | inr e ↦
          let ttl = ttl_or start config (λ b. b.default_ttl_seconds) default_ttl_seconds in
          let refill = ttl_or bump config (λ b. b.bump_decay_rate) default_bump_decay_rate in
          let table : recompute_in ttl refill p.thread_id (posts ++ p ∷ []) ≡ posts' =
            ground (arith, e, h) in
          ap (any_by (λ q. same q.thread_id t)) (sym table)
          ∙ in_thread-recompute_in t ttl refill p.thread_id (posts ++ p ∷ [])
          ∙ in_thread-append t posts p
    ]
