-- ===== src/Purge/Identity.antt =====
-- What a purge leaves of the rows: tests of rows that none passes, before and after.
pub mod Passes
pub mod Gone
use retiboard.Base.{
  ℕ, ◌≡◌, refl, ap, subst, ◌∙◌, arith, Bool, true, false, not, ◌&&◌, String, same, List, [], ◌∷◌,
  map, filter_by, any_by, Option, none, some, Option-cases, Bool-cases, inl, inr, text_key,
}
use retiboard.Store.Models.{Board, PostMetadata, is_op}
use retiboard.Store.Lifecycle.{
  Lifecycle, updated_row, get_post, recompute_thread_lifecycle, ttl_or, default_ttl_seconds,
  default_bump_decay_rate,
}
use retiboard.Store.Lifecycle.Settled.{lifecycle_of, refresh}
use retiboard.Store.Lifecycle.Arrival.{recompute_in_lem}
use retiboard.Purge.{
  PurgeState, PurgeResult, delete_post_metadata, delete_thread_metadata, purge_blobs, purge_thread,
  purge_reply, purge_post,
}

-- A test of what a purge leaves as it is in a row: its identifier, its thread, its author.
abbrev pub RowTest : Type 0
RowTest = String → String → String → Bool

abbrev pub passes : RowTest → PostMetadata → Bool
passes test p = test p.post_id p.thread_id p.identity_hash

abbrev pub found : RowTest → List PostMetadata → Bool
found test = any_by (passes test)

pub found-filter_by :
    (test : RowTest) (kept : PostMetadata → Bool) (posts : List PostMetadata)
    → found test posts ≡ false
    → found test (filter_by kept posts) ≡ false
unfolding any_by filter_by
found-filter_by test kept [] h = refl
found-filter_by test kept (p ∷ posts) h = ground (arith, found-filter_by test kept posts)

pub found-implied :
    (weak strong : RowTest)
    → ((i t u : String) → strong i t u ≡ true → weak i t u ≡ true)
    → (posts : List PostMetadata) → found weak posts ≡ false
    → found strong posts ≡ false
unfolding any_by
found-implied weak strong imp [] h = refl
found-implied weak strong imp (p ∷ posts) h =
    ground (arith, imp p.post_id p.thread_id p.identity_hash, found-implied weak strong imp posts)

passes-refresh :
    (test : RowTest) (t : String) (l : Option Lifecycle) (p : PostMetadata)
    → passes test (refresh t l p) ≡ passes test p
unfolding updated_row
passes-refresh test t none p = refl
passes-refresh test t (some l) p = elim (Bool-cases (same p.thread_id t)) [
  | inl e ↦ rw (e, updated_row) refl
  | inr e ↦ rw (e, updated_row) refl
]

found-refresh :
    (test : RowTest) (t : String) (l : Option Lifecycle) (posts : List PostMetadata)
    → found test (map (refresh t l) posts) ≡ found test posts
unfolding any_by
found-refresh test t l [] = refl
found-refresh test t l (p ∷ posts) =
    rw (passes-refresh test t l p, found-refresh test t l posts) refl

found-recompute :
    (test : RowTest) (config : Option Board) (t : String) (posts : List PostMetadata)
    → found test (recompute_thread_lifecycle config t posts) ≡ found test posts
unfolding recompute_thread_lifecycle
found-recompute test config t posts =
    let ttl = ttl_or none config (λ b. b.default_ttl_seconds) default_ttl_seconds in
    let refill = ttl_or none config (λ b. b.bump_decay_rate) default_bump_decay_rate in
    ap (found test) (recompute_in_lem ttl refill t posts)
    ∙ found-refresh test t (lifecycle_of ttl refill posts t) posts

-- The posts that a state holds.
abbrev pub posts_of : PurgeState × PurgeResult → List PostMetadata
posts_of r = r.0.board.posts

-- The first post of a thread under this identifier.
abbrev pub opens : String → RowTest
opens x i t u = same i x && same i t

get_post-opens :
    (x : String) (posts : List PostMetadata) (p : PostMetadata)
    → get_post x posts ≡ some p
    → found (opens x) posts ≡ false
    → is_op p ≡ false
unfolding get_post any_by
get_post-opens x [] p e h = cc
get_post-opens x (q ∷ posts) p e h = elim (Bool-cases (same q.post_id x)) [
  | inl this ↦
      let same_post : q ≡ p = ground (arith, e, this) in
      subst (λ r. is_op r ≡ false) same_post (ground (arith, h, this))
  | inr other ↦ get_post-opens x posts p (ground (arith, e, other)) (ground (arith, h))
]

found-deleted_post :
    (x : String) (posts : List PostMetadata)
    → found (λ i t u. same i x) (filter_by (λ p. not (same p.post_id x)) posts) ≡ false
unfolding any_by filter_by
found-deleted_post x [] = refl
found-deleted_post x (p ∷ posts) = ground (arith, found-deleted_post x posts)

pub found-deleted_thread :
    (t : String) (posts : List PostMetadata)
    → found (λ i v u. same v t) (filter_by (λ p. not (same p.thread_id t)) posts) ≡ false
unfolding any_by filter_by
found-deleted_thread t [] = refl
found-deleted_thread t (p ∷ posts) = ground (arith, found-deleted_thread t posts)

module _ (now : ℕ) (reason : String) where
  pub posts-purge_thread :
      (s : PurgeState) (t : String)
      → posts_of (purge_thread now reason s t)
        ≡ filter_by (λ p. not (same p.thread_id t)) s.board.posts
  unfolding purge_thread delete_thread_metadata purge_blobs
  posts-purge_thread s t = refl

  found-purge_reply :
      (test : RowTest) (s : PurgeState) (x : String) (row : Option PostMetadata)
      → found test (posts_of (purge_reply now reason s x row))
        ≡ found test (filter_by (λ p. not (same p.post_id x)) s.board.posts)
  unfolding purge_reply delete_post_metadata purge_blobs
  found-purge_reply test s x none = refl
  found-purge_reply test s x (some p) =
      found-recompute test s.board.board_config p.thread_id
        (filter_by (λ p. not (same p.post_id x)) s.board.posts)

  pub found-purge_post :
      (test : RowTest) (s : PurgeState) (x : String)
      → found test s.board.posts ≡ false
      → found test (posts_of (purge_post now reason s x)) ≡ false
  unfolding purge_post
  found-purge_post test s x h =
      let reply = λ (row : Option PostMetadata).
        found-purge_reply test s x row
        ∙ found-filter_by test (λ p. not (same p.post_id x)) s.board.posts h in
      elim (Option-cases (get_post x s.board.posts)) [
        | inl missing ↦ rw (missing, purge_post) (reply none)
        | inr (p, there) ↦ elim (Bool-cases (is_op p)) [
          | inl op ↦
              rw (there, op, purge_post)
                (ap (found test) (posts-purge_thread s p.thread_id)
                  ∙ found-filter_by test (λ q. not (same q.thread_id p.thread_id)) s.board.posts h)
          | inr no_op ↦ rw (there, no_op, purge_post) (reply (some p))
        ]
      ]

  -- A post that opens no thread is gone when it has been purged.
  pub purge_post-gone :
      (s : PurgeState) (x : String)
      → found (opens x) s.board.posts ≡ false
      → found (λ i t u. same i x) (posts_of (purge_post now reason s x)) ≡ false
  unfolding purge_post
  purge_post-gone s x h =
      let reply = λ (row : Option PostMetadata).
        found-purge_reply (λ i t u. same i x) s x row ∙ found-deleted_post x s.board.posts in
      elim (Option-cases (get_post x s.board.posts)) [
        | inl missing ↦ rw (missing, purge_post) (reply none)
        | inr (p, there) ↦
            let no_op = get_post-opens x s.board.posts p there h in
            rw (there, no_op, purge_post) (reply (some p))
      ]
