-- ===== src/Receiver/Accepted.antt =====
-- What is known of a post that is stored.
use retiboard.Base.{
  ℕ, ◌+◌, ◌≤◌, ◌<◌, ◌≡◌, refl, sym, ap, subst, ◌∙◌, arith, ltb, Bool, true, false, not, ◌&&◌,
  String, truthy, List, Option, none, some,
}
use retiboard.Store.Models.{Board, PostMetadata}
use retiboard.Store.Lifecycle.{post_exists, insert_post, read_back}
use retiboard.Moderation.Policy.{should_reject_post}
use retiboard.Pow.{verify_pow}
use retiboard.Pruning.Board.{BoardState}
use retiboard.Receiver.{
  MetaDict, get_or, Rejection, duplicate, invalid_pow, attachments_on_text_only, too_old, in_future,
  moderated, missing_post_id, unsubscribed, unknown_board, failed, Outcome, done, rejected, ◌>>=◌,
  ◌>>◌, reject_if, need, PowFields, pow_fields, Sizes, stamp, checked_sizes, built, validated,
  handle_incoming_metadata,
}

-- A step that did not refuse.
reject_if-done :
    {B : Type 0} (b : Bool) (r : Rejection) (m : Outcome B) (a : B)
    → (reject_if b r >> m) ≡ done a
    → (b ≡ false) × (m ≡ done a)
reject_if-done true r m a h = cc
reject_if-done false r m a h = (refl, h)

need-done :
    {A B : Type 0} (o : Option A) (r : Rejection) (f : A → Outcome B) (b : B)
    → (need o r >>= f) ≡ done b
    → (a : A) × (o ≡ some a) × (f a ≡ done b)
need-done none r f b h = cc
need-done (some a) r f b h = (a, refl, h)

bind-done :
    {A B : Type 0} (m : Outcome A) (f : A → Outcome B) (b : B)
    → (m >>= f) ≡ done b
    → (a : A) × (m ≡ done a) × (f a ≡ done b)
bind-done (done a) f b h = (a, refl, h)
bind-done (rejected r) f b h = cc

abbrev Sized : (max_payload_size : ℕ) → Sizes → Type 0
Sized max_payload_size z =
    (0 < z.payload_size)
    × (z.payload_size ≤ max_payload_size)
    × (z.attachment_payload_size ≤ max_payload_size)

checked_sizes-Sized :
    (d : MetaDict) (max_payload_size : ℕ) (z : Sizes)
    → checked_sizes d max_payload_size ≡ done z
    → Sized max_payload_size z
unfolding checked_sizes
checked_sizes-Sized d max_payload_size z h = ground arith

stamp-timestamp :
    (d : MetaDict) (source_hash : String) → (stamp d source_hash).timestamp ≡ d.timestamp
unfolding stamp
stamp-timestamp d source_hash = ground arith

pub built-done :
    (d : MetaDict) (config : Board) (now : ℕ) (post_id : String) (z : Sizes) (p : PostMetadata)
    → built d config now post_id z ≡ done p
    → (p.post_id ≡ post_id)
      × (p.timestamp ≡ get_or d.timestamp now)
      × (p.payload_size ≡ z.payload_size)
      × (p.attachment_payload_size ≡ z.attachment_payload_size)
      × (p.is_abandoned ≡ false)
unfolding built
built-done d config now post_id z p h = ground arith

true_when_not : (b : Bool) → not b ≡ false → b ≡ true
true_when_not b h = ground arith

outcome_eq : {A : Type 0} {a b : A} → done a ≡ done b → a ≡ b
outcome_eq h = cc

finished :
    (s s' : BoardState) (posts : List PostMetadata) (p stored : PostMetadata)
    → ◌≡◌ {A = Outcome (BoardState × PostMetadata)}
        (done (record s { posts = posts }, read_back posts p))
        (done (s', stored))
    → (posts ≡ s'.posts) × (s' ≡ record s { posts = posts }) × (stored ≡ read_back posts p)
finished s s' posts p stored h =
    let e = outcome_eq h in
    (
      ap (λ (r : BoardState × PostMetadata). r.0.posts) e,
      sym (ap (λ (r : BoardState × PostMetadata). r.0) e),
      sym (ap (λ (r : BoardState × PostMetadata). r.1) e),
    )

module _ (canonicalize_metadata : PowFields → String) (compute_pow_hash : String → String → ℕ)
    (max_payload_size : ℕ) where
  -- What the tests leave of a post.
  pub record IsAdmitted (s : BoardState) (d : MetaDict) (source_hash : String) (config : Board)
      (now : ℕ) (p : PostMetadata) : Type 0 where
    pub is_new : post_exists p.post_id s.posts ≡ false
    pub has_work :
        verify_pow canonicalize_metadata compute_pow_hash
          (pow_fields (stamp d source_hash))
          (get_or d.pow_nonce "")
          config.pow_difficulty
        ≡ true
    pub is_allowed : (should_reject_post s.content_control p).allowed ≡ true
    pub is_recent : now ≤ p.timestamp + config.default_ttl_seconds
    pub is_not_future : p.timestamp ≤ now + 3600
    pub has_payload : 0 < p.payload_size
    pub payload_fits : p.payload_size ≤ max_payload_size
    pub attachment_fits : p.attachment_payload_size ≤ max_payload_size
    pub is_unmarked : p.is_abandoned ≡ false

  pub validated-IsAdmitted :
      (s : BoardState) (d : MetaDict) (post_id source_hash : String) (config : Board) (now : ℕ)
      (p : PostMetadata)
      → validated canonicalize_metadata compute_pow_hash max_payload_size s d post_id source_hash
          config now
        ≡ done p
      → (p.post_id ≡ post_id) × IsAdmitted s d source_hash config now p
  unfolding validated
  validated-IsAdmitted s d post_id source_hash config now p h =
      let (fresh, h1) = reject_if-done (post_exists post_id s.posts) duplicate _ p h in
      let stamped = stamp d source_hash in
      let (work, h2) =
        reject_if-done
          (not (
            verify_pow canonicalize_metadata compute_pow_hash (pow_fields stamped)
              (get_or d.pow_nonce "") config.pow_difficulty))
          invalid_pow _ p h1 in
      let (_, h3) =
        reject_if-done (config.text_only && get_or d.has_attachments false) attachments_on_text_only
          _ p h2 in
      let (recent, h4) =
        reject_if-done (ltb (get_or d.timestamp 0 + config.default_ttl_seconds) now) too_old _ p
          h3 in
      let (present, h5) =
        reject_if-done (ltb (now + 3600) (get_or d.timestamp 0)) in_future _ p h4 in
      let last = λ (q : PostMetadata).
        reject_if (not (should_reject_post s.content_control q).allowed) moderated >> done q in
      let (sizes, sized, h6) =
        bind-done (checked_sizes stamped max_payload_size)
          (λ z. built stamped config now post_id z >>= last) p h5 in
      let (post, found, h7) = bind-done (built stamped config now post_id sizes) last p h6 in
      let (allowed, h8) =
        reject_if-done (not (should_reject_post s.content_control post).allowed) moderated
          (done post) p h7 in
      let same_post : post ≡ p = ground (arith, h8) in
      let fits = checked_sizes-Sized (stamp d source_hash) max_payload_size sizes sized in
      let fields = built-done (stamp d source_hash) config now post_id sizes post found in
      subst (λ q. (q.post_id ≡ post_id) × IsAdmitted s d source_hash config now q) same_post
        (
          fields.0,
          record {
            is_new = rw fields.0 fresh;
            has_work = ground (arith, work);
            is_allowed = ground (arith, allowed);
            is_recent = ground (arith, recent, fields.1, stamp-timestamp d source_hash);
            is_not_future = ground (arith, present, fields.1, stamp-timestamp d source_hash);
            has_payload = rw fields.2 fits.0;
            payload_fits = rw fields.2 fits.1;
            attachment_fits = rw fields.3 fits.2;
            is_unmarked = fields.4;
          },
        )

  -- A post from another node is stored only if the board is subscribed and known and the post is
  -- admitted: it is new, its proof of work holds for its fields with the sender's identity filled in, the
  -- rules do not refuse it, it is neither older than the full time of a thread nor more than an hour
  -- ahead, and its sizes are within the limit. Nothing but the table of posts changes, and that as
  -- `insert_post` changes it.
  pub handle_incoming_metadata_lem :
      (subscribed : Bool) (s : BoardState) (d : MetaDict) (source_hash : String) (now : ℕ)
      (s' : BoardState) (stored : PostMetadata)
      → handle_incoming_metadata canonicalize_metadata compute_pow_hash max_payload_size subscribed
          s d source_hash now
        ≡ done (s', stored)
      → (config : Board) × (p : PostMetadata) × (s.board_config ≡ some config)
        × (subscribed ≡ true)
        × (truthy p.post_id ≡ true)
        × (p.post_id ≡ get_or d.post_id "")
        × IsAdmitted s d source_hash config now p
        × (insert_post s.board_config s.posts p
              (some config.default_ttl_seconds)
              (some config.bump_decay_rate)
            ≡ some s'.posts)
        × (s' ≡ record s { posts = s'.posts })
        × (stored ≡ read_back s'.posts p)
  unfolding handle_incoming_metadata
  handle_incoming_metadata_lem subscribed s d source_hash now s' stored h =
      let post_id = get_or d.post_id "" in
      let (named, h1) = reject_if-done (not (truthy post_id)) missing_post_id _ (s', stored) h in
      let (sub, h2) = reject_if-done (not subscribed) unsubscribed _ (s', stored) h1 in
      let (config, known, h3) = need-done s.board_config unknown_board _ (s', stored) h2 in
      let valid =
        validated canonicalize_metadata compute_pow_hash max_payload_size s d post_id source_hash
          config now in
      let (p, admitted, h4) = bind-done valid _ (s', stored) h3 in
      let (posts, inserted, h5) =
        need-done
          (insert_post s.board_config s.posts p (some config.default_ttl_seconds)
            (some config.bump_decay_rate))
          failed _ (s', stored) h4 in
      let (same_posts, same_state, same_stored) = finished s s' posts p stored h5 in
      let (same_id, admits) = validated-IsAdmitted s d post_id source_hash config now p admitted in
      (
        config,
        p,
        known,
        ground (arith, sub),
        rw same_id (true_when_not (truthy post_id) named),
        same_id,
        admits,
        inserted ∙ ap some same_posts,
        same_state ∙ ap (λ (table : List PostMetadata). record s { posts = table }) same_posts,
        same_stored ∙ ap (λ table. read_back table p) same_posts,
      )
