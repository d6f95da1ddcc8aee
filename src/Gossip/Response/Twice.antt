-- ===== src/Gossip/Response/Twice.antt =====
-- The same answer again.
use retiboard.Base.{
  ℕ, ◌+◌, ◌≡◌, refl, sym, ap, subst, ◌∙◌, arith, Bool, true, false, String, truthy, List, [], ◌∷◌,
  Option, none, some, inl, inr, Bool-cases, Option-cases, same_refl,
}
use retiboard.Store.Models.{Board, PostMetadata}
use retiboard.Store.Lifecycle.{post_exists, insert_post, read_back}
use retiboard.Store.Lifecycle.Inserted.{post_exists-insert_post}
use retiboard.Pruning.Board.{BoardState}
use retiboard.Receiver.{
  MetaDict, get_or, PowFields, Rejection, missing_post_id, unknown_board, duplicate, Outcome, done,
  rejected, validated, handle_incoming_metadata,
}
use retiboard.Receiver.Accepted.{handle_incoming_metadata_lem, validated-IsAdmitted}
use retiboard.Receiver.Redelivery.{known_duplicate, handle_incoming_metadata-twice}
use retiboard.Purge.Thread.{Outcome-cases}
use retiboard.Gossip.Response.{process_records, process_delta_response}

-- A later state of a board: the same rules, and at least the same posts.
abbrev Extends : BoardState → BoardState → Type 0
Extends s s' =
    (s'.board_config ≡ s.board_config)
    × (s'.content_control ≡ s.content_control)
    × ((x : String) → post_exists x s.posts ≡ true → post_exists x s'.posts ≡ true)

module _ (canonicalize_metadata : PowFields → String) (compute_pow_hash : String → String → ℕ)
    (max_payload_size : ℕ) (source_hash : String) (now : ℕ) where
  abbrev handled : BoardState → MetaDict → Outcome (BoardState × PostMetadata)
  handled s d =
      handle_incoming_metadata canonicalize_metadata compute_pow_hash max_payload_size true s d
        source_hash now

  -- The record is refused.
  abbrev Refused : BoardState → MetaDict → Type 0
  Refused s d = (r : Rejection) × (handled s d ≡ rejected r)

  stored-Extends :
      (s s' : BoardState) (d : MetaDict) (post : PostMetadata)
      → handled s d ≡ done (s', post)
      → Extends s s' × (post_exists (get_or d.post_id "") s'.posts ≡ true)
  stored-Extends s s' d post e =
      let (config, p, _, _, _, same_id, _, inserted, state, _) =
        handle_incoming_metadata_lem canonicalize_metadata compute_pow_hash max_payload_size true s
          d source_hash now s' post e in
      let exists =
        (post_exists-insert_post s.board_config s.posts s'.posts p (some config.default_ttl_seconds)
          (some config.bump_decay_rate) inserted).1 in
      (
        (
          ap (λ (b : BoardState). b.board_config) state,
          ap (λ (b : BoardState). b.content_control) state,
          λ x h. exists x ∙ rw h refl,
        ),
        exists (get_or d.post_id "") ∙ rw (sym same_id, same_refl p.post_id) ground arith,
      )

  validated-Extends :
      (s s' : BoardState) (d : MetaDict) (config : Board)
      → s'.content_control ≡ s.content_control
      → post_exists (get_or d.post_id "") s.posts ≡ false
      → post_exists (get_or d.post_id "") s'.posts ≡ false
      → validated canonicalize_metadata compute_pow_hash max_payload_size s' d
          (get_or d.post_id "")
          source_hash
          config
          now
        ≡ validated canonicalize_metadata compute_pow_hash max_payload_size s d
            (get_or d.post_id "")
            source_hash
            config
            now
  unfolding validated
  validated-Extends s s' d config control new new' = rw (new, new', control) refl

  abbrev tested : BoardState → MetaDict → Board → Outcome PostMetadata
  tested s d config =
      validated canonicalize_metadata compute_pow_hash max_payload_size s d (get_or d.post_id "")
        source_hash config now

  refused_by_tests :
      (s : BoardState) (d : MetaDict) (config : Board) (q : Rejection)
      → s.board_config ≡ some config
      → truthy (get_or d.post_id "") ≡ true
      → tested s d config ≡ rejected q
      → handled s d ≡ rejected q
  unfolding handle_incoming_metadata validated
  refused_by_tests s d config q known named refused = rw (named, known, refused) refl

  stored_after_tests :
      (s : BoardState) (d : MetaDict) (config : Board) (p : PostMetadata)
      → s.board_config ≡ some config
      → truthy (get_or d.post_id "") ≡ true
      → tested s d config ≡ done p
      → (b : BoardState × PostMetadata) × (handled s d ≡ done b)
  unfolding handle_incoming_metadata insert_post validated read_back
  stored_after_tests s d config p known named admitted =
      let (_, admits) =
        validated-IsAdmitted canonicalize_metadata compute_pow_hash max_payload_size s d
          (get_or d.post_id "") source_hash config now p admitted in
      elim (Option-cases (
        insert_post (some config) s.posts p (some config.default_ttl_seconds)
          (some config.bump_decay_rate))) [
            | inl refused ↦ absurd (ground (arith, admits.is_new, refused))
            | inr (posts, inserted) ↦ (
              (record s { posts = posts }, read_back posts p),
              rw (named, known, admitted, inserted) refl,
            )
          ]

  -- A record that is new in the later state meets there the tests that it met in the earlier one.
  still_not_admitted :
      (s s' : BoardState) (d : MetaDict) (config : Board) (r : Rejection)
      → s.board_config ≡ some config
      → Extends s s'
      → truthy (get_or d.post_id "") ≡ true
      → post_exists (get_or d.post_id "") s.posts ≡ false
      → post_exists (get_or d.post_id "") s'.posts ≡ false
      → handled s d ≡ rejected r
      → Refused s' d
  still_not_admitted s s' d config r known ext named new new' e =
      elim (Outcome-cases (tested s d config)) [
        | inr (q, refused) ↦ (
          q,
          refused_by_tests s' d config q (ext.0 ∙ known) named
              (validated-Extends s s' d config ext.1 new new' ∙ refused),
        )
        | inl (p, admitted) ↦
            let (b, kept) = stored_after_tests s d config p known named admitted in absurd cc
      ]

  Refused-Extends : (s s' : BoardState) (d : MetaDict) → Extends s s' → Refused s d → Refused s' d
  unfolding handle_incoming_metadata
  Refused-Extends s s' d ext (r, e) = elim (Bool-cases (truthy (get_or d.post_id ""))) [
    | inr unnamed ↦ (missing_post_id, rw unnamed refl)
    | inl named ↦ elim (Option-cases s.board_config) [
      | inl unknown ↦ (unknown_board, rw (named, ext.0, unknown) refl)
      | inr (config, known) ↦ elim (Bool-cases (post_exists (get_or d.post_id "") s'.posts)) [
        | inl there ↦ (
          duplicate,
          known_duplicate canonicalize_metadata compute_pow_hash max_payload_size s' config d
              source_hash now (ext.0 ∙ known) named there,
        )
        | inr new' ↦ elim (Bool-cases (post_exists (get_or d.post_id "") s.posts)) [
          | inl there ↦ absurd (ground (arith, ext.2 (get_or d.post_id "") there, new'))
          | inr new ↦ still_not_admitted s s' d config r known ext named new new' e
        ]
      ]
    ]
  ]

  Extends-trans : (s t u : BoardState) → Extends s t → Extends t u → Extends s u
  Extends-trans s t u h k = (k.0 ∙ h.0, k.1 ∙ h.1, λ x e. k.2 x (h.2 x e))

  abbrev processed : BoardState → List MetaDict → ℕ → BoardState × ℕ
  processed =
      process_records canonicalize_metadata compute_pow_hash max_payload_size source_hash now

  after_stored :
      (s s' : BoardState) (d : MetaDict) (post : PostMetadata) (ds : List MetaDict) (n : ℕ)
      → handled s d ≡ done (s', post)
      → processed s (d ∷ ds) n ≡ processed s' ds (n + 1)
  unfolding process_records
  after_stored s s' d post ds n e = rw (e, process_records) refl

  skipped_over :
      (s : BoardState) (d : MetaDict) (ds : List MetaDict) (n : ℕ)
      → Refused s d
      → processed s (d ∷ ds) n ≡ processed s ds n
  unfolding process_records
  skipped_over s d ds n (r, e) = rw (e, process_records) refl

  processed-Extends : (s : BoardState) (ds : List MetaDict) (n : ℕ) → Extends s (processed s ds n).0
  unfolding process_records
  processed-Extends s [] n = (refl, refl, λ x h. h)
  processed-Extends s (d ∷ ds) n = elim (Outcome-cases (handled s d)) [
    | inl ((s', post), kept) ↦ rw (after_stored s s' d post ds n kept) (
        Extends-trans s s' (processed s' ds (n + 1)).0 (stored-Extends s s' d post kept).0
          (processed-Extends s' ds (n + 1)))
    | inr (r, refused) ↦ rw (skipped_over s d ds n (r, refused)) (processed-Extends s ds n)
  ]

  stored-Refused :
      (s s' : BoardState) (d : MetaDict) (post : PostMetadata)
      → handled s d ≡ done (s', post)
      → Refused s' d
  stored-Refused s s' d post e =
      let (config, _, known, _, _, _, _, _, state, _) =
        handle_incoming_metadata_lem canonicalize_metadata compute_pow_hash max_payload_size true s
          d source_hash now s' post e in
      let there = (stored-Extends s s' d post e).1 in
      let still = ap (λ (b : BoardState). b.board_config) state ∙ known in
      (
        duplicate,
        (handle_incoming_metadata-twice canonicalize_metadata compute_pow_hash max_payload_size s s'
            s' config d d source_hash source_hash now now post e refl still there).1,
      )

  -- A run from the state in which another has ended that stores nothing.
  abbrev Repeats : List MetaDict → ℕ → BoardState × ℕ → Type 0
  Repeats ds n b = processed b.0 ds n ≡ (b.0, n)

  processed-Repeats :
      (s : BoardState) (ds : List MetaDict) (m n : ℕ) → Repeats ds n (processed s ds m)
  unfolding process_records
  processed-Repeats s [] m n = refl
  processed-Repeats s (d ∷ ds) m n = elim (Outcome-cases (handled s d)) [
    | inl ((s', post), kept) ↦
        let end = processed s' ds (m + 1) in
        let refused =
          Refused-Extends s' end.0 d (processed-Extends s' ds (m + 1))
            (stored-Refused s s' d post kept) in
        subst (Repeats (d ∷ ds) n) (sym (after_stored s s' d post ds m kept))
          (skipped_over end.0 d ds n refused ∙ processed-Repeats s' ds (m + 1) n)
    | inr (r, refused) ↦
        let end = processed s ds m in
        let still = Refused-Extends s end.0 d (processed-Extends s ds m) (r, refused) in
        subst (Repeats (d ∷ ds) n) (sym (skipped_over s d ds m (r, refused)))
          (skipped_over end.0 d ds n still ∙ processed-Repeats s ds m n)
  ]

  -- The same answer from the same node, processed again at once, stores nothing and changes nothing.
  pub process_delta_response-twice :
      (subscribed : Bool) (s : BoardState) (response : Option (List MetaDict))
      → process_delta_response canonicalize_metadata compute_pow_hash max_payload_size source_hash
          now subscribed
          (process_delta_response canonicalize_metadata compute_pow_hash max_payload_size
            source_hash now subscribed s response).0
          response
        ≡ (
          (process_delta_response canonicalize_metadata compute_pow_hash max_payload_size
              source_hash now subscribed s response).0,
          0,
        )
  unfolding process_delta_response
  process_delta_response-twice subscribed s none = refl
  process_delta_response-twice true s (some ds) = processed-Repeats s ds 0 0
  process_delta_response-twice false s (some ds) = refl
