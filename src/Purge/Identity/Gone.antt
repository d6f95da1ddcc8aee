-- ===== src/Purge/Identity/Gone.antt =====
-- A banned identity has no posts left.
use retiboard.Base.{
  ℕ, ◌≡◌, refl, arith, if◌then◌else◌, Bool, true, false, not, ◌&&◌, String, same, same_sym,
  same_refl, List, [], ◌∷◌, filter_by, any_by, All, Bool-cases, inl, inr, text_key,
}
use retiboard.Base.Sets.{contains, add, contains-add}
use retiboard.Store.Models.{PostMetadata, is_op}
use retiboard.Store.Lifecycle.Rows.{DistinctIds}
use retiboard.Purge.{PurgeState, empty_result}
use retiboard.Purge.Bans.{
  create_moderation_action, purge_threads, purge_posts, opened_threads, purge_identity,
}
use retiboard.Purge.Identity.{RowTest, passes, found, posts_of, opens}
use retiboard.Purge.Identity.Passes.{
  at, Purgeable, found-purge_threads, purge_threads-gone, found-purge_posts, purge_posts-Gone,
}

contains-opened_threads :
    (t : String) (ps : List PostMetadata) (ts : List String)
    → contains t ts ≡ true
    → contains t (opened_threads ps ts) ≡ true
unfolding opened_threads
contains-opened_threads t [] ts h = h
contains-opened_threads t (p ∷ ps) ts h =
    contains-opened_threads t ps (if is_op p then add p.thread_id ts else ts)
      (ground (arith, h, contains-add p.thread_id t ts))

-- A post that opens a thread is among the posts that open one.
opener-contained :
    (ps : List PostMetadata) (ts : List String)
    → All (λ p. is_op p ≡ true → contains p.thread_id (opened_threads ps ts) ≡ true) ps
unfolding opened_threads
opener-contained [] ts = tt
opener-contained (p ∷ ps) ts = (
  λ op.
      contains-opened_threads p.thread_id ps (if is_op p then add p.thread_id ts else ts)
        (ground (arith, op, same_refl p.thread_id, contains-add p.thread_id p.thread_id ts)),
  opener-contained ps (if is_op p then add p.thread_id ts else ts),
)

-- Where identifiers differ, a post that opens no thread shares its identifier with none that does.
found-opens_cons :
    (p : PostMetadata) (posts : List PostMetadata)
    → is_op p ≡ false
    → All (λ q. same p.post_id q.post_id ≡ false) posts
    → found (opens p.post_id) posts ≡ false
unfolding any_by
found-opens_cons p [] no_op d = refl
found-opens_cons p (q ∷ posts) no_op d =
    ground (arith, same_sym p.post_id q.post_id d.0, found-opens_cons p posts no_op d.1)

-- What holds of the posts that are banned.
abbrev Alone : List PostMetadata → PostMetadata → Type 0
Alone posts p = is_op p ≡ false → found (opens p.post_id) posts ≡ false

Alone-cons :
    (p : PostMetadata) (posts qs : List PostMetadata)
    → All (λ q. same p.post_id q.post_id ≡ false) qs
    → All (Alone posts) qs
    → All (Alone (p ∷ posts)) qs
unfolding any_by
Alone-cons p posts [] d h = tt
Alone-cons p posts (q ∷ qs) d h =
    (λ no_op. ground (arith, d.0, h.0 no_op), Alone-cons p posts qs d.1 h.1)

DistinctIds-Alone : (posts : List PostMetadata) → DistinctIds posts → All (Alone posts) posts
unfolding any_by
DistinctIds-Alone [] d = tt
DistinctIds-Alone (p ∷ posts) d = (
  λ no_op. ground (arith, no_op, found-opens_cons p posts no_op d.0),
  Alone-cons p posts posts d.0 (DistinctIds-Alone posts d.1),
)

All-filter_by :
    (P : PostMetadata → Type 0) (test : PostMetadata → Bool) (posts : List PostMetadata)
    → All P posts
    → All P (filter_by test posts)
unfolding filter_by
All-filter_by P test [] h = tt
All-filter_by P test (p ∷ posts) h = elim (Bool-cases (test p)) [
  | inl e ↦ rw (e, filter_by) (h.0, All-filter_by P test posts h.1)
  | inr e ↦ rw (e, filter_by) (All-filter_by P test posts h.1)
]

-- The row is one of these posts.
abbrev listed : List PostMetadata → RowTest
listed ps i t u = any_by (λ q. at q i t u) ps

none_listed :
    (r : PostMetadata) (rows ps : List PostMetadata)
    → All (λ p. found (at p) (r ∷ rows) ≡ false) ps
    → (passes (listed ps) r ≡ false) × All (λ p. found (at p) rows ≡ false) ps
unfolding any_by
none_listed r rows [] h = (refl, tt)
none_listed r rows (p ∷ ps) h =
    let (rest, below) = none_listed r rows ps h.1 in
    (ground (arith, h.0, rest), (ground (arith, h.0), below))

module _ (identity_hash : String) where
  abbrev written : PostMetadata → Bool
  written p = same p.identity_hash identity_hash

  -- Rows of the identity that are none of these posts.
  abbrev unlisted : List PostMetadata → RowTest
  unlisted ps i t u = same u identity_hash && not (listed ps i t u)

  found-unlisted :
      (posts ps : List PostMetadata)
      → ((i t u : String) → listed (filter_by written posts) i t u ≡ true → listed ps i t u ≡ true)
      → found (unlisted ps) posts ≡ false
  unfolding any_by filter_by
  found-unlisted [] ps sub = refl
  found-unlisted (p ∷ posts) ps sub =
      let rest = found-unlisted posts ps (λ i t u h. sub i t u (ground (arith, h))) in
      ground (
        arith,
        rest,
        sub p.post_id p.thread_id p.identity_hash,
        same_refl p.post_id,
        same_refl p.thread_id,
      )

  nothing_left :
      (rows ps : List PostMetadata)
      → found (unlisted ps) rows ≡ false
      → All (λ p. found (at p) rows ≡ false) ps
      → found (λ i t u. same u identity_hash) rows ≡ false
  unfolding any_by
  nothing_left [] ps h gone = refl
  nothing_left (r ∷ rows) ps h gone =
      let (unknown, below) = none_listed r rows ps gone in
      ground (arith, h, unknown, nothing_left rows ps (ground (arith, h)) below)

-- What was alone in the table is so after the first pass; a post that is not in a thread that is gone
-- opens none.
All-Purgeable :
    (ts : List String) (posts rows ps : List PostMetadata)
    → ((x : String) → found (opens x) posts ≡ false → found (opens x) rows ≡ false)
    → All (λ p. is_op p ≡ true → contains p.thread_id ts ≡ true) ps
    → All (Alone posts) ps
    → All (Purgeable ts rows) ps
All-Purgeable ts posts rows [] later op alone = tt
All-Purgeable ts posts rows (p ∷ ps) later op alone = (
  λ absent. later p.post_id (alone.0 (ground (arith, op.0, absent))),
  All-Purgeable ts posts rows ps later op.1 alone.1,
)

contained_in_none :
    (x : String) (rows : List PostMetadata)
    → contains x [] ≡ true
    → found (λ i t u. same i x) rows ≡ false
unfolding contains
contained_in_none x rows h = cc

-- When an identity is banned, none of its posts is left in the table, whether it opened a thread, which
-- then goes as a whole, or answered in one of another identity.
pub purge_identity_lem :
    (now : ℕ) (reason : String) (s : PurgeState) (action_id : ℕ) (identity_hash : String)
    → DistinctIds s.board.posts
    → any_by
        (λ p. same p.identity_hash identity_hash)
        (purge_identity now reason s action_id identity_hash).0.board.posts
      ≡ false
unfolding purge_identity create_moderation_action
purge_identity_lem now reason s action_id identity_hash distinct =
    let ps = filter_by (written identity_hash) s.board.posts in
    let ts = opened_threads ps [] in
    let logged = create_moderation_action now reason s action_id "identity_ban" identity_hash in
    let result = empty_result "identity" identity_hash in
    let first = purge_threads now reason logged action_id ts result in
    let last = purge_posts now reason first.0 action_id ts [] ps first.1 in
    let later = λ (test : RowTest) (h : found test s.board.posts ≡ false).
      found-purge_threads now reason test logged action_id ts result h in
    let purgeable =
      All-Purgeable ts s.board.posts (posts_of first) ps (λ x. later (opens x))
        (opener-contained ps [])
        (All-filter_by (Alone s.board.posts) (written identity_hash) s.board.posts
          (DistinctIds-Alone s.board.posts distinct)) in
    let gone =
      purge_posts-Gone now reason first.0 action_id ts [] ps first.1
        (
          λ t e. purge_threads-gone now reason t logged action_id ts result e,
          λ x e. contained_in_none x (posts_of first) e,
        )
        purgeable in
    let known = found-unlisted identity_hash s.board.posts ps (λ i t u h. h) in
    nothing_left identity_hash (posts_of last) ps
      (found-purge_posts now reason (unlisted identity_hash ps) first.0 action_id ts [] ps first.1
        (later (unlisted identity_hash ps) known))
      gone
