-- ===== src/Receiver/Redelivery.antt =====
-- A post that arrives again.
use retiboard.Base.{ℕ, ◌≡◌, refl, sym, ap, ◌∙◌, arith, true, String, same_refl, truthy, some}
use retiboard.Store.Models.{Board, PostMetadata}
use retiboard.Store.Lifecycle.{post_exists}
use retiboard.Store.Lifecycle.Inserted.{post_exists-insert_post}
use retiboard.Pruning.Board.{BoardState}
use retiboard.Receiver.{
  MetaDict, get_or, PowFields, duplicate, done, rejected, validated, handle_incoming_metadata,
}
use retiboard.Receiver.Accepted.{handle_incoming_metadata_lem}

module _ (canonicalize_metadata : PowFields → String) (compute_pow_hash : String → String → ℕ)
    (max_payload_size : ℕ) where
  pub known_duplicate :
      (s : BoardState) (config : Board) (d : MetaDict) (source_hash : String) (now : ℕ)
      → s.board_config ≡ some config
      → truthy (get_or d.post_id "") ≡ true
      → post_exists (get_or d.post_id "") s.posts ≡ true
      → handle_incoming_metadata canonicalize_metadata compute_pow_hash max_payload_size true s d
          source_hash now
        ≡ rejected duplicate
  unfolding handle_incoming_metadata validated
  known_duplicate s config d source_hash now known named there = rw (named, known, there) refl

  stored_there :
      (s s' : BoardState) (d : MetaDict) (source_hash : String) (now : ℕ) (stored : PostMetadata)
      → handle_incoming_metadata canonicalize_metadata compute_pow_hash max_payload_size true s d
          source_hash now
        ≡ done (s', stored)
      → (truthy (get_or d.post_id "") ≡ true) × (post_exists (get_or d.post_id "") s'.posts ≡ true)
  stored_there s s' d source_hash now stored h =
      let (config, p, _, _, named, id, _, inserted, _, _) =
        handle_incoming_metadata_lem canonicalize_metadata compute_pow_hash max_payload_size true s
          d source_hash now s' stored h in
      let exists =
        post_exists-insert_post s.board_config s.posts s'.posts p (some config.default_ttl_seconds)
          (some config.bump_decay_rate) inserted in
      (
        ap truthy (sym id) ∙ named,
        ap (λ x. post_exists x s'.posts) (sym id)
            ∙ exists.1 p.post_id
            ∙ ground (arith, same_refl p.post_id),
      )

  -- A post that is stored has a row in the table, and as long as the row is there, in whatever later state
  -- of the board, it is refused as a duplicate, whoever sends it again, at any time and whatever else it
  -- then says.
  pub handle_incoming_metadata-twice :
      (s s' later_state : BoardState) (config : Board) (d e : MetaDict)
      (source_hash other_hash : String) (now later : ℕ) (stored : PostMetadata)
      → handle_incoming_metadata canonicalize_metadata compute_pow_hash max_payload_size true s d
          source_hash now
        ≡ done (s', stored)
      → e.post_id ≡ d.post_id
      → later_state.board_config ≡ some config
      → post_exists (get_or d.post_id "") later_state.posts ≡ true
      → (post_exists (get_or e.post_id "") s'.posts ≡ true)
        × (handle_incoming_metadata canonicalize_metadata compute_pow_hash max_payload_size true
              later_state e other_hash later
            ≡ rejected duplicate)
  handle_incoming_metadata-twice s s' u config d e source_hash other_hash now later stored h
        same_post known there =
      let (named, stands) = stored_there s s' d source_hash now stored h in
      let sent : get_or e.post_id "" ≡ get_or d.post_id "" = ap (λ o. get_or o "") same_post in
      (
        ap (λ x. post_exists x s'.posts) sent ∙ stands,
        known_duplicate u config e other_hash later known (ap truthy sent ∙ named)
            (ap (λ x. post_exists x u.posts) sent ∙ there),
      )
