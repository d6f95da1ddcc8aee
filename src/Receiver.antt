-- ===== src/Receiver.antt =====
-- `handle_incoming_metadata` of retiboard/sync/receiver.py: which posts from other nodes are stored.
-- The dictionary of the post has values of the declared types, or lacks them; sizes may also be
-- malformed. A timestamp is not negative, as a negative one is refused as too old. What follows a
-- stored post, the message to the user's browser, the replication and the registration of the sender,
-- belongs to other parts.
pub mod Accepted
pub mod Redelivery
pub mod Stored
use retiboard.Base.{
  ℕ, zero, suc, ◌+◌, max, ltb, if◌then◌else◌, Bool, true, false, not, ◌&&◌, ◌||◌, String, same,
  truthy, List, [], Option, none, some,
}
use retiboard.Base.Int.{ℤ, pos, negsuc}
use retiboard.Store.Models.{Board, PostMetadata}
use retiboard.Store.Lifecycle.{post_exists, insert_post, read_back}
use retiboard.Moderation.Policy.{should_reject_post}
use retiboard.Pow.{verify_pow}
use retiboard.Pruning.Board.{BoardState}

-- A number from the wire that goes through `int(… or 0)`.
pub data SizeField : Type 0 where
  absent malformed : SizeField
  number : ℤ → SizeField

pub record MetaDict : Type 0 where
  pub post_id : Option String
  pub thread_id : Option String
  pub parent_id : Option String
  pub timestamp : Option ℕ
  pub bump_flag : Option Bool
  pub content_hash : Option String
  pub payload_size : SizeField
  pub attachment_content_hash : Option String
  pub attachment_payload_size : SizeField
  pub has_attachments : Option Bool
  pub attachment_count : SizeField
  pub text_only : Option Bool
  pub identity_hash : Option String
  pub pow_nonce : Option String
  pub public_key : Option String
  pub encrypted_pings : Option (List String)
  pub edit_signature : Option String
  pub thread_last_activity : Option ℕ

-- `d.get(key, default)`
abbrev pub get_or : {A : Type 0} → Option A → A → A
get_or none default = default
get_or (some a) default = a

-- Why nothing is stored; `failed` is an exception, which is caught.
pub data Rejection : Type 0 where
  missing_post_id unsubscribed unknown_board duplicate invalid_pow attachments_on_text_only :
      Rejection
  too_old in_future malformed_sizes invalid_payload_size invalid_attachment_count : Rejection
  unexpected_attachment_count invalid_attachment_payload_size payload_too_large : Rejection
  attachment_too_large moderated failed : Rejection

pub data Outcome (A : Type 0) : Type 0 where
  done : A → Outcome A
  rejected : Rejection → Outcome A

infixl 5 ◌>>=◌ ◌>>◌
abbrev pub ◌>>=◌ : {A B : Type 0} → Outcome A → (A → Outcome B) → Outcome B
done a >>= f = f a
rejected r >>= f = rejected r

abbrev pub ◌>>◌ : {B : Type 0} → Outcome (Unit {0}) → Outcome B → Outcome B
m >> k = m >>= λ _. k

abbrev pub reject_if : Bool → Rejection → Outcome (Unit {0})
reject_if true r = rejected r
reject_if false r = done tt

abbrev pub need : {A : Type 0} → Option A → Rejection → Outcome A
need none r = rejected r
need (some a) r = done a

-- Numbers below 0 are kept as such until the tests.
abbrev pub size_of : SizeField → Option ℤ
size_of absent = some (pos 0)
size_of malformed = none
size_of (number n) = some n

-- `n > 0`, and the number where it is.
abbrev pub positive : ℤ → Bool
positive (pos zero) = false
positive (pos (suc n)) = true
positive (negsuc n) = false

abbrev pub nonzero : ℤ → Bool
nonzero (pos zero) = false
nonzero (pos (suc n)) = true
nonzero (negsuc n) = true

abbrev pub nat_of : ℤ → ℕ
nat_of (pos n) = n
nat_of (negsuc n) = 0

-- The fields that the proof of work covers.
pub record PowFields : Type 0 where
  pub post_id : String
  pub thread_id : String
  pub parent_id : String
  pub timestamp : ℕ
  pub bump_flag : Bool
  pub content_hash : String
  pub payload_size : SizeField
  pub attachment_content_hash : String
  pub attachment_payload_size : SizeField
  pub has_attachments : Bool
  pub attachment_count : SizeField
  pub text_only : Bool
  pub identity_hash : String
  pub public_key : String
  pub encrypted_pings : List String
  pub edit_signature : String

-- The transport's identity where the post has none. A sender that is not known is the empty text.
unfoldable pub stamp : MetaDict → (source_hash : String) → MetaDict
stamp d source_hash =
    if not (truthy (get_or d.identity_hash "")) && truthy source_hash
    then record d { identity_hash = some source_hash }
    else d

abbrev pub pow_fields : MetaDict → PowFields
pow_fields d = record {
  post_id = get_or d.post_id "";
  thread_id = get_or d.thread_id "";
  parent_id = get_or d.parent_id "";
  timestamp = get_or d.timestamp 0;
  bump_flag = get_or d.bump_flag false;
  content_hash = get_or d.content_hash "";
  payload_size = d.payload_size;
  attachment_content_hash = get_or d.attachment_content_hash "";
  attachment_payload_size = d.attachment_payload_size;
  has_attachments = get_or d.has_attachments false;
  attachment_count = d.attachment_count;
  text_only = get_or d.text_only false;
  identity_hash = get_or d.identity_hash "";
  public_key = get_or d.public_key "";
  encrypted_pings = get_or d.encrypted_pings [];
  edit_signature = get_or d.edit_signature "";
}

pub record Sizes : Type 0 where
  pub payload_size : ℕ
  pub attachment_payload_size : ℕ
  pub attachment_count : ℕ

-- The tests of the declared sizes against one another and against the local limit.
unfoldable pub checked_sizes : MetaDict → (max_payload_size : ℕ) → Outcome Sizes
checked_sizes d max_payload_size = do
  payload_size ← need (size_of d.payload_size) malformed_sizes
  attachment_payload_size ← need (size_of d.attachment_payload_size) malformed_sizes
  attachment_count ← need (size_of d.attachment_count) malformed_sizes
  let attachments_declared =
      get_or d.has_attachments false
      || truthy (get_or d.attachment_content_hash "")
      || nonzero attachment_payload_size
  reject_if (not (positive payload_size)) invalid_payload_size
  reject_if (attachments_declared && not (positive attachment_count)) invalid_attachment_count
  reject_if (not attachments_declared && nonzero attachment_count) unexpected_attachment_count
  reject_if (attachments_declared && not (positive attachment_payload_size))
      invalid_attachment_payload_size
  reject_if (ltb max_payload_size (nat_of payload_size)) payload_too_large
  reject_if (ltb max_payload_size (nat_of attachment_payload_size)) attachment_too_large
  done (record {
    payload_size = nat_of payload_size;
    attachment_payload_size = nat_of attachment_payload_size;
    attachment_count = nat_of attachment_count;
  })

-- The post that is stored. `thread_id` and `content_hash` are read without a default.
unfoldable pub built :
    MetaDict → Board → (now : ℕ) → (post_id : String) → Sizes → Outcome PostMetadata
built d config now post_id sizes = do
  thread_id ← need d.thread_id failed
  content_hash ← need d.content_hash failed
  let timestamp : ℕ = get_or d.timestamp now
  let wire_tla : ℕ = get_or d.thread_last_activity 0
  done (record {
    post_id = post_id;
    thread_id = thread_id;
    parent_id = get_or d.parent_id "";
    timestamp = timestamp;
    expiry_timestamp = timestamp + config.default_ttl_seconds;
    bump_flag = get_or d.bump_flag false;
    content_hash = content_hash;
    payload_size = sizes.payload_size;
    attachment_content_hash = get_or d.attachment_content_hash "";
    attachment_payload_size = sizes.attachment_payload_size;
    has_attachments = get_or d.has_attachments false;
    attachment_count = sizes.attachment_count;
    text_only = get_or d.text_only false;
    identity_hash = get_or d.identity_hash "";
    pow_nonce = get_or d.pow_nonce "";
    public_key = get_or d.public_key "";
    encrypted_pings = get_or d.encrypted_pings [];
    edit_signature = get_or d.edit_signature "";
    thread_last_activity = if same post_id thread_id then max wire_tla timestamp else wire_tla;
    is_abandoned = false;
  })

module _ (canonicalize_metadata : PowFields → String) (compute_pow_hash : String → String → ℕ)
    (max_payload_size : ℕ) where
  -- The tests up to the moderation, on a board that is known.
  unfoldable pub validated :
      BoardState
      → MetaDict
      → (post_id source_hash : String) → Board
      → (now : ℕ) → Outcome PostMetadata
  validated s d post_id source_hash config now = do
    reject_if (post_exists post_id s.posts) duplicate
    let stamped = stamp d source_hash
    reject_if
        (not (
          verify_pow canonicalize_metadata compute_pow_hash (pow_fields stamped)
            (get_or d.pow_nonce "") config.pow_difficulty))
        invalid_pow
    reject_if (config.text_only && get_or d.has_attachments false) attachments_on_text_only
    reject_if (ltb (get_or d.timestamp 0 + config.default_ttl_seconds) now) too_old
    reject_if (ltb (now + 3600) (get_or d.timestamp 0)) in_future
    sizes ← checked_sizes stamped max_payload_size
    post ← built stamped config now post_id sizes
    reject_if (not (should_reject_post s.content_control post).allowed) moderated
    done post

  -- The board with the post, and the post as it was stored.
  unfoldable pub handle_incoming_metadata :
      (subscribed : Bool)
      → BoardState
      → MetaDict
      → (source_hash : String) → (now : ℕ) → Outcome (BoardState × PostMetadata)
  handle_incoming_metadata subscribed s d source_hash now = do
    let post_id = get_or d.post_id ""
    reject_if (not (truthy post_id)) missing_post_id
    reject_if (not subscribed) unsubscribed
    config ← need s.board_config unknown_board
    post ← validated s d post_id source_hash config now
    posts ←
        need
          (insert_post s.board_config s.posts post (some config.default_ttl_seconds)
            (some config.bump_decay_rate))
          failed
    done (record s { posts = posts }, read_back posts post)
