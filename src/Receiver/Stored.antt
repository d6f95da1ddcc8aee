-- ===== src/Receiver/Stored.antt =====
-- A post that passes every test is stored.
use retiboard.Base.{
  ℕ, ◌+◌, ◌≤◌, ◌≡◌, refl, sym, ◌∙◌, arith, ltb, true, false, ◌&&◌, String, same_refl, truthy, some,
  inl, inr, Option-cases,
}
use retiboard.Store.Models.{Board, PostMetadata}
use retiboard.Store.Lifecycle.{post_exists, insert_post, read_back}
use retiboard.Store.Lifecycle.Inserted.{post_exists-insert_post}
use retiboard.Moderation.Policy.{should_reject_post}
use retiboard.Pow.{verify_pow}
use retiboard.Pruning.Board.{BoardState}
use retiboard.Receiver.{
  MetaDict, get_or, PowFields, pow_fields, stamp, Sizes, checked_sizes, built, done, validated,
  handle_incoming_metadata,
}
use retiboard.Receiver.Accepted.{built-done}

module _ (canonicalize_metadata : PowFields → String) (compute_pow_hash : String → String → ℕ)
    (max_payload_size : ℕ) where
  passed :
      (s : BoardState) (d : MetaDict) (source_hash : String) (now : ℕ) (config : Board) (z : Sizes)
      (p : PostMetadata)
      → post_exists (get_or d.post_id "") s.posts ≡ false
      → verify_pow canonicalize_metadata compute_pow_hash
          (pow_fields (stamp d source_hash))
          (get_or d.pow_nonce "")
          config.pow_difficulty
        ≡ true
      → (config.text_only && get_or d.has_attachments false) ≡ false
      → now ≤ get_or d.timestamp 0 + config.default_ttl_seconds
      → get_or d.timestamp 0 ≤ now + 3600
      → checked_sizes (stamp d source_hash) max_payload_size ≡ done z
      → built (stamp d source_hash) config now (get_or d.post_id "") z ≡ done p
      → (should_reject_post s.content_control p).allowed ≡ true
      → validated canonicalize_metadata compute_pow_hash max_payload_size s d
          (get_or d.post_id "")
          source_hash
          config
          now
        ≡ done p
  unfolding validated
  passed s d source_hash now config z p new work flags recent present sized shaped allowed =
      let not_old : ltb (get_or d.timestamp 0 + config.default_ttl_seconds) now ≡ false =
        ground arith in
      let not_future : ltb (now + 3600) (get_or d.timestamp 0) ≡ false = ground arith in
      rw (new, work, flags, not_old, not_future, sized, shaped, allowed) refl

  -- A post that is new and passes every test of the receiver on a subscribed board is stored: afterwards
  -- the table has it, with all the posts that it had before.
  pub handle_incoming_metadata-stores :
      (s : BoardState) (d : MetaDict) (source_hash : String) (now : ℕ) (config : Board) (z : Sizes)
      (p : PostMetadata)
      → s.board_config ≡ some config
      → truthy (get_or d.post_id "") ≡ true
      → post_exists (get_or d.post_id "") s.posts ≡ false
      → verify_pow canonicalize_metadata compute_pow_hash
          (pow_fields (stamp d source_hash))
          (get_or d.pow_nonce "")
          config.pow_difficulty
        ≡ true
      → (config.text_only && get_or d.has_attachments false) ≡ false
      → now ≤ get_or d.timestamp 0 + config.default_ttl_seconds
      → get_or d.timestamp 0 ≤ now + 3600
      → checked_sizes (stamp d source_hash) max_payload_size ≡ done z
      → built (stamp d source_hash) config now (get_or d.post_id "") z ≡ done p
      → (should_reject_post s.content_control p).allowed ≡ true
      → (s' : BoardState) × (stored : PostMetadata) × (handle_incoming_metadata
            canonicalize_metadata compute_pow_hash max_payload_size true s d source_hash now
          ≡ done (s', stored))
        × (post_exists (get_or d.post_id "") s'.posts ≡ true)
        × ((x : String) → post_exists x s.posts ≡ true → post_exists x s'.posts ≡ true)
  unfolding handle_incoming_metadata validated insert_post read_back
  handle_incoming_metadata-stores s d source_hash now config z p known named new work flags recent
        present sized shaped allowed =
      let valid =
        passed s d source_hash now config z p new work flags recent present sized shaped allowed in
      let same_id =
        (built-done (stamp d source_hash) config now (get_or d.post_id "") z p shaped).0 in
      let is_new : post_exists p.post_id s.posts ≡ false = rw same_id new in
      elim (Option-cases (
        insert_post (some config) s.posts p (some config.default_ttl_seconds)
          (some config.bump_decay_rate))) [
            | inl refused ↦ absurd (ground (arith, is_new, refused))
            | inr (posts, inserted) ↦
                let exists =
                  (post_exists-insert_post (some config) s.posts posts p
                    (some config.default_ttl_seconds) (some config.bump_decay_rate) inserted).1 in
                (
                  record s { posts = posts },
                  read_back posts p,
                  rw (named, known, valid, inserted) refl,
                  exists (get_or d.post_id "") ∙ rw (sym same_id, same_refl p.post_id) ground arith,
                  λ x h. exists x ∙ rw h refl,
                )
          ]
