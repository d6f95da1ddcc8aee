-- ===== src/Store/Models.antt =====
-- The records of retiboard/db/models.py that the tables hold.
use retiboard.Base.{ℕ, Bool, String, same, List}
use retiboard.Base.Int.{ℤ}

-- The columns of `board_config`.
pub record Board : Type 0 where
  pub board_id : String
  pub display_name : String
  pub text_only : Bool
  pub default_ttl_seconds : ℕ
  pub bump_decay_rate : ℕ
  pub max_active_threads_local : ℕ
  pub pow_difficulty : ℤ
  pub announce_version : ℕ
  pub subscribed_at : ℕ

pub record PostMetadata : Type 0 where
  pub post_id : String
  pub thread_id : String
  pub parent_id : String
  pub timestamp : ℕ
  pub expiry_timestamp : ℕ
  pub bump_flag : Bool
  pub content_hash : String
  pub payload_size : ℕ
  pub attachment_content_hash : String
  pub attachment_payload_size : ℕ
  pub has_attachments : Bool
  pub attachment_count : ℕ
  pub text_only : Bool
  pub identity_hash : String
  pub pow_nonce : String
  pub public_key : String
  pub encrypted_pings : List String
  pub edit_signature : String
  pub thread_last_activity : ℕ
  pub is_abandoned : Bool

-- The post that opens its thread.
abbrev pub is_op : PostMetadata → Bool
is_op p = same p.post_id p.thread_id
