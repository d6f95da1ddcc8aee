-- ===== src/Moderation/Policy.antt =====
-- What the rules decide about posts and blobs. A decision without a reason has none given.
use retiboard.Base.{
  ℕ, if◌then◌else◌, Bool, true, false, ◌&&◌, String, same, truthy, List, [], ◌∷◌, Option, none,
  some,
}
use retiboard.Store.Models.{PostMetadata}
use retiboard.Moderation.Controls.{
  Control, identity_scope, thread_scope, post_scope, attachment_scope, block, purge, scope_text,
  action_text, has_control,
}

pub record ModerationDecision : Type 0 where
  pub allowed : Bool
  pub reason : Option String

abbrev pub refused : String → ModerationDecision
refused reason = record { allowed = false; reason = some reason }

abbrev pub granted : ModerationDecision
granted = record { allowed = true; reason = none }

module _ (db : List Control) where
  unfoldable pub is_identity_blocked : String → Bool
  is_identity_blocked identity_hash =
      truthy identity_hash
      && has_control db (scope_text identity_scope) identity_hash (action_text block)

  unfoldable pub is_attachment_banned : String → Bool
  is_attachment_banned attachment_content_hash =
      truthy attachment_content_hash
      && has_control db (scope_text attachment_scope) attachment_content_hash (action_text block)

  unfoldable pub is_thread_purged : String → Bool
  is_thread_purged thread_id =
      truthy thread_id && has_control db (scope_text thread_scope) thread_id (action_text purge)

  unfoldable pub is_post_purged : String → Bool
  is_post_purged post_id =
      truthy post_id && has_control db (scope_text post_scope) post_id (action_text purge)

  unfoldable pub should_reject_post : PostMetadata → ModerationDecision
  should_reject_post post =
      if is_identity_blocked post.identity_hash
      then refused "blocked_identity"
      else if is_thread_purged post.thread_id
      then refused "purged_thread"
      else if is_post_purged post.post_id
      then refused "purged_post"
      else granted

  unfoldable pub should_replicate_post : PostMetadata → ModerationDecision
  should_replicate_post post =
      if post.is_abandoned
      then refused "abandoned"
      else let decision = should_reject_post post in if decision.allowed then granted else decision

pub record BlobReference : Type 0 where
  pub post_id : String
  pub thread_id : String
  pub blob_kind : String
  pub expiry_timestamp : ℕ
  pub text_only : Bool
  pub identity_hash : String

abbrev pub reference_of : String → PostMetadata → BlobReference
reference_of blob_kind p = record {
  post_id = p.post_id;
  thread_id = p.thread_id;
  blob_kind = blob_kind;
  expiry_timestamp = p.expiry_timestamp;
  text_only = p.text_only;
  identity_hash = p.identity_hash;
}

-- `SELECT … WHERE … LIMIT 1`
unfoldable pub first_where : (PostMetadata → Bool) → List PostMetadata → Option PostMetadata
first_where test [] = none
first_where test (p ∷ posts) = if test p then some p else first_where test posts

unfoldable pub get_blob_reference : List PostMetadata → String → Option BlobReference
unfolding first_where
get_blob_reference posts blob_hash = elim (first_where (λ p. same p.content_hash blob_hash) posts) [
  | some p ↦ some (reference_of "text" p)
  | none ↦ elim (first_where (λ p. same p.attachment_content_hash blob_hash) posts) [
    | some p ↦ some (reference_of "attachments" p)
    | none ↦ none
  ]
]

module _ (db : List Control) where
  unfoldable pub serve_reference : String → BlobReference → ModerationDecision
  serve_reference blob_hash ref =
      if truthy ref.identity_hash && is_identity_blocked db ref.identity_hash
      then refused "withheld_local_policy"
      else if same ref.blob_kind "attachments" && is_attachment_banned db blob_hash
      then refused "withheld_local_policy"
      else if same ref.blob_kind "attachments" && ref.text_only
      then refused "policy_rejected"
      else if truthy ref.thread_id && is_thread_purged db ref.thread_id
      then refused "withheld_local_policy"
      else if truthy ref.post_id && is_post_purged db ref.post_id
      then refused "withheld_local_policy"
      else granted

  unfoldable pub should_serve_blob : List PostMetadata → String → ModerationDecision
  unfolding serve_reference
  should_serve_blob posts blob_hash = elim (get_blob_reference posts blob_hash) [
    | none ↦ refused "not_found"
    | some ref ↦ serve_reference blob_hash ref
  ]
