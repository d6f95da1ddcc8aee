-- ===== src/Purge/Thread.antt =====
-- What a purged thread leaves behind, and that it does not come back.
use retiboard.Base.{
  ℕ, ◌≡◌, refl, sym, ap, ◌∙◌, arith, Bool, true, false, not, String, same, same_refl, same_iff,
  subst, ◌⊎◌, truthy, List, [], ◌∷◌, filter_by, any_by, some, text_key, Bool-cases, inl, inr,
}
use retiboard.Store.Models.{PostMetadata}
use retiboard.Store.Lifecycle.Inserted.{in_thread-insert_post}
use retiboard.Moderation.Controls.{Control}
use retiboard.Moderation.Policy.{should_reject_post, is_thread_purged}
use retiboard.Moderation.Withheld.{purged_thread}
use retiboard.Pruning.Board.{BoardState}
use retiboard.Receiver.{
  MetaDict, PowFields, Rejection, Outcome, done, rejected, handle_incoming_metadata,
}
use retiboard.Receiver.Accepted.{handle_incoming_metadata_lem}
use retiboard.Purge.{PurgeState, purge_thread, delete_thread_metadata}

-- What another node sends, and when.
pub record Incoming : Type 0 where
  pub subscribed : Bool
  pub meta_dict : MetaDict
  pub source_hash : String
  pub now : ℕ

abbrev pub in_thread : String → List PostMetadata → Bool
in_thread t posts = any_by (λ p. same p.thread_id t) posts

pub Outcome-cases :
    {A : Type 0} (o : Outcome A) → ((a : A) × (o ≡ done a)) ⊎ ((r : Rejection) × (o ≡ rejected r))
Outcome-cases (done a) = inl (a, refl)
Outcome-cases (rejected r) = inr (r, refl)

module _ (canonicalize_metadata : PowFields → String) (compute_pow_hash : String → String → ℕ)
    (max_payload_size : ℕ) where
  -- One message; one that is refused changes nothing.
  abbrev receive : BoardState → Incoming → BoardState
  receive s m =
      elim (handle_incoming_metadata canonicalize_metadata compute_pow_hash max_payload_size
        m.subscribed s m.meta_dict m.source_hash m.now) [ done (s', stored) ↦ s' | rejected r ↦ s ]

  abbrev pub receive_all : BoardState → List Incoming → BoardState
  receive_all s [] = s
  receive_all s (m ∷ messages) = receive_all (receive s m) messages

  abbrev Absent : String → BoardState → Type 0
  Absent t s = (in_thread t s.posts ≡ false) × (is_thread_purged s.content_control t ≡ true)

  allowed_thread :
      (db : List Control) (p : PostMetadata) (t : String)
      → (should_reject_post db p).allowed ≡ true
      → is_thread_purged db t ≡ true
      → same p.thread_id t ≡ false
  unfolding should_reject_post
  allowed_thread db p t h k = elim (Bool-cases (same p.thread_id t)) [
    | inr e ↦ e
    | inl e ↦
        let purged : is_thread_purged db p.thread_id ≡ true =
          subst (λ u. is_thread_purged db u ≡ true) (sym ((same_iff p.thread_id t).0 e)) k in
        ground (arith, h, purged)
  ]

  stored_elsewhere :
      (t : String) (s s' : BoardState) (m : Incoming) (stored : PostMetadata)
      → Absent t s
      → handle_incoming_metadata canonicalize_metadata compute_pow_hash max_payload_size
          m.subscribed s m.meta_dict m.source_hash m.now
        ≡ done (s', stored)
      → Absent t s'
  stored_elsewhere t s s' m stored h e =
      let (config, p, _, _, _, _, admitted, inserted, state, _) =
        handle_incoming_metadata_lem canonicalize_metadata compute_pow_hash max_payload_size
          m.subscribed s m.meta_dict m.source_hash m.now s' stored e in
      let elsewhere = allowed_thread s.content_control p t admitted.is_allowed h.1 in
      (
        in_thread-insert_post s.board_config s.posts s'.posts p (some config.default_ttl_seconds)
              (some config.bump_decay_rate) t inserted
            ∙ rw (h.0, elsewhere) refl,
        ap (λ (b : BoardState). is_thread_purged b.content_control t) state ∙ h.1,
      )

  receive-Absent :
      (t : String) (s : BoardState) (m : Incoming) → Absent t s → Absent t (receive s m)
  receive-Absent t s m h =
      let outcome =
        handle_incoming_metadata canonicalize_metadata compute_pow_hash max_payload_size
          m.subscribed s m.meta_dict m.source_hash m.now in
      elim (Outcome-cases outcome) [
        | inr (r, e) ↦ rw (e, receive) h
        | inl ((s', stored), e) ↦ rw (e, receive) (stored_elsewhere t s s' m stored h e)
      ]

  receive_all-Absent :
      (t : String) (messages : List Incoming) (s : BoardState)
      → Absent t s
      → Absent t (receive_all s messages)
  receive_all-Absent t [] s h = h
  receive_all-Absent t (m ∷ messages) s h =
      receive_all-Absent t messages (receive s m) (receive-Absent t s m h)

filter_by-in_thread :
    (t : String) (posts : List PostMetadata)
    → in_thread t (filter_by (λ p. not (same p.thread_id t)) posts) ≡ false
unfolding any_by filter_by
filter_by-in_thread t [] = refl
filter_by-in_thread t (p ∷ posts) = ground (arith, filter_by-in_thread t posts)

-- A thread that is purged is gone with all its rows, and it does not come back, whatever other nodes
-- send afterwards and in whatever order.
pub receive_all-purge_thread :
    (canonicalize_metadata : PowFields → String) (compute_pow_hash : String → String → ℕ)
    (max_payload_size now : ℕ) (reason : String) (s : PurgeState) (thread_id : String)
    (messages : List Incoming)
    → truthy thread_id ≡ true
    → in_thread thread_id
        (receive_all canonicalize_metadata compute_pow_hash max_payload_size
          (purge_thread now reason s thread_id).0.board
          messages).posts
      ≡ false
unfolding purge_thread delete_thread_metadata
receive_all-purge_thread canonicalize_metadata compute_pow_hash max_payload_size now reason s t
      messages named =
    (receive_all-Absent canonicalize_metadata compute_pow_hash max_payload_size t messages
      (purge_thread now reason s t).0.board
      (
        filter_by-in_thread t s.board.posts,
        purged_thread now s.board.content_control t reason t ∙ ground (arith, named, same_refl t),
      )).0
