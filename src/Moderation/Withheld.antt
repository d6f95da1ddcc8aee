-- ===== src/Moderation/Withheld.antt =====
-- The decisions of the policy on a post and on a blob, before and after a thread is purged.
use retiboard.Base.{
  refl, text_discrete, ℕ, ◌≡◌, ◌≢◌, arith, false, not, ◌&&◌, ◌||◌, String, same, truthy, List, some,
  [], ◌∷◌, none, Bool, true, any_by, if◌then◌else◌, ◌⊎◌, inl, inr, Bool-cases, text_key,
}
use retiboard.Moderation.Controls.{Control, mark_thread_purged}
use retiboard.Store.Models.{PostMetadata}
use retiboard.Moderation.Policy.{
  BlobReference, is_identity_blocked, is_thread_purged, is_post_purged, should_reject_post,
  should_replicate_post, get_blob_reference, serve_reference, should_serve_blob,
  is_attachment_banned, first_where, reference_of,
}
use retiboard.Moderation.Effect.{has_control-set_control}

-- A post is replicated exactly if its thread is not abandoned, its author is not blocked, and neither
-- its thread nor the post itself is purged.
should_replicate_post_iff :
    (db : List Control) (post : PostMetadata)
    → (should_replicate_post db post).allowed ≡ (
        not post.is_abandoned
        && not (is_identity_blocked db post.identity_hash)
        && not (is_thread_purged db post.thread_id)
        && not (is_post_purged db post.post_id))
unfolding should_replicate_post should_reject_post
should_replicate_post_iff db post = ground arith

thread_is_not_identity : same "thread" "identity" ≡ false
unfolding text_discrete
thread_is_not_identity = refl

thread_is_not_post : same "thread" "post" ≡ false
unfolding text_discrete
thread_is_not_post = refl

module _ (now : ℕ) (db : List Control) (thread_id reason : String) where
  purged_blocked :
      (h : String)
      → is_identity_blocked (mark_thread_purged now db thread_id reason) h
        ≡ is_identity_blocked db h
  unfolding is_identity_blocked mark_thread_purged
  purged_blocked h = ground (
    arith,
    has_control-set_control now db "thread" thread_id "purge" reason "identity" h "block",
    thread_is_not_identity,
  )

  purged_post :
      (h : String)
      → is_post_purged (mark_thread_purged now db thread_id reason) h ≡ is_post_purged db h
  unfolding is_post_purged mark_thread_purged
  purged_post h = ground (
    arith,
    has_control-set_control now db "thread" thread_id "purge" reason "post" h "purge",
    thread_is_not_post,
  )

  pub purged_thread :
      (h : String)
      → is_thread_purged (mark_thread_purged now db thread_id reason) h
        ≡ ((truthy h && same thread_id h) || is_thread_purged db h)
  unfolding is_thread_purged mark_thread_purged
  purged_thread h =
      ground
        (arith, has_control-set_control now db "thread" thread_id "purge" reason "thread" h "purge")

thread_is_not_attachment : same "thread" "attachment" ≡ false
unfolding text_discrete
thread_is_not_attachment = refl

purged_attachment :
    (now : ℕ) (db : List Control) (thread_id reason h : String)
    → is_attachment_banned (mark_thread_purged now db thread_id reason) h
      ≡ is_attachment_banned db h
unfolding is_attachment_banned mark_thread_purged
purged_attachment now db thread_id reason h = ground (
  arith,
  has_control-set_control now db "thread" thread_id "purge" reason "attachment" h "block",
  thread_is_not_attachment,
)

served_reference :
    (now : ℕ) (db : List Control) (thread_id reason blob_hash : String) (ref : BlobReference)
    → thread_id ≢ ""
    → (serve_reference (mark_thread_purged now db thread_id reason) blob_hash ref).allowed
      ≡ (not (same thread_id ref.thread_id) && (serve_reference db blob_hash ref).allowed)
unfolding serve_reference
served_reference now db thread_id reason blob_hash ref named = ground (
  arith,
  purged_blocked now db thread_id reason ref.identity_hash,
  purged_attachment now db thread_id reason blob_hash,
  purged_post now db thread_id reason ref.post_id,
  purged_thread now db thread_id reason ref.thread_id,
)

-- The first of these rows that passes the test is of the thread.
abbrev leads : (PostMetadata → Bool) → String → List PostMetadata → Bool
leads test t [] = false
leads test t (p ∷ posts) = if test p then same t p.thread_id else leads test t posts

first_where-leads :
    (test : PostMetadata → Bool) (t : String) (posts : List PostMetadata)
    → ((first_where test posts ≡ none) × (any_by test posts ≡ false))
      ⊎ ((p : PostMetadata) × (first_where test posts ≡ some p)
          × (any_by test posts ≡ true)
          × (leads test t posts ≡ same t p.thread_id))
unfolding first_where any_by
first_where-leads test t [] = inl (refl, refl)
first_where-leads test t (p ∷ posts) = elim (Bool-cases (test p)) [
  | inl e ↦ inr (p, rw e refl, rw e refl, rw e refl)
  | inr e ↦ elim (first_where-leads test t posts) [
    | inl (absent, nowhere) ↦ inl (rw e absent, rw e nowhere)
    | inr (q, there, somewhere, first) ↦ inr (q, rw e there, rw e somewhere, rw e first)
  ]
]

abbrev has_text : String → PostMetadata → Bool
has_text h p = same p.content_hash h

abbrev has_attachments_at : String → PostMetadata → Bool
has_attachments_at h p = same p.attachment_content_hash h

-- The first row that has the blob as its text, or else as its attachments, is of the thread.
abbrev pub refers_to_thread : List PostMetadata → (blob_hash thread_id : String) → Bool
refers_to_thread posts h t =
    if any_by (has_text h) posts
    then leads (has_text h) t posts
    else leads (has_attachments_at h) t posts

-- When a thread is marked as purged, exactly the posts of other threads that were replicated before are
-- replicated still, and exactly the blobs that were served before and whose reference is to another
-- thread are served still. The reference of a blob is the first row that has it as its text, or, if no
-- row has, as its attachments, so that a blob of the thread to which an earlier row of another thread
-- refers is not withheld.
pub mark_thread_purged-Withheld :
    (now : ℕ) (db : List Control) (posts : List PostMetadata) (thread_id reason blob_hash : String)
    (post : PostMetadata)
    → thread_id ≢ ""
    → ((should_replicate_post (mark_thread_purged now db thread_id reason) post).allowed
        ≡ (not (same thread_id post.thread_id) && (should_replicate_post db post).allowed))
      × ((should_serve_blob (mark_thread_purged now db thread_id reason) posts blob_hash).allowed
          ≡ (not (refers_to_thread posts blob_hash thread_id)
              && (should_serve_blob db posts blob_hash).allowed))
unfolding should_serve_blob get_blob_reference
mark_thread_purged-Withheld now db posts thread_id reason blob_hash post named = (
  ground (
    arith,
    should_replicate_post_iff (mark_thread_purged now db thread_id reason) post,
    should_replicate_post_iff db post,
    purged_blocked now db thread_id reason post.identity_hash,
    purged_post now db thread_id reason post.post_id,
    purged_thread now db thread_id reason post.thread_id,
  ),
  elim (first_where-leads (has_text blob_hash) thread_id posts) [
    | inr (p, there, known, first) ↦
        rw (there, known, first, should_serve_blob, get_blob_reference)
          (served_reference now db thread_id reason blob_hash (reference_of "text" p) named)
    | inl (absent, nowhere) ↦
        elim (first_where-leads (has_attachments_at blob_hash) thread_id posts) [
          | inr (p, there, known, first) ↦
              rw (absent, nowhere, there, first, should_serve_blob, get_blob_reference)
                (served_reference now db thread_id reason blob_hash (reference_of "attachments" p)
                  named)
          | inl (none_there, _) ↦
              rw (absent, nowhere, none_there, should_serve_blob, get_blob_reference) ground arith
        ]
  ],
)
