-- ===== src/Queue/Message.antt =====
-- The constants, the priorities and the message of message_queue.py.
use retiboard.Base.{ℕ, ◌+◌, ◌-◌, ltb, Bool, true, false, not, String, List, length}
use retiboard.Base.Time.{seconds}

abbrev pub queue_max_depth_per_peer : ℕ
queue_max_depth_per_peer = 32

abbrev pub queue_control_ttl : ℕ
queue_control_ttl = seconds 300

abbrev pub queue_data_ttl : ℕ
queue_data_ttl = seconds 3600

abbrev pub queue_max_total_memory_mb : ℕ
queue_max_total_memory_mb = 16

pub data Priority : Type 0 where
  control bulk : Priority

abbrev pub is_control : Priority → Bool
is_control control = true
is_control bulk = false

pub data SendResult : Type 0 where
  sent queued rejected : SendResult

-- `__bool__`
unfoldable pub accepted : SendResult → Bool
accepted sent = true
accepted queued = true
accepted rejected = false

pub record QueuedMessage : Type 0 where
  pub peer_lxmf_hash : String
  pub payload : List ℕ
  pub priority : Priority
  pub title : String
  pub ttl : ℕ
  pub enqueued_at : ℕ
  pub size_bytes : ℕ

-- The constructor with `__post_init__`.
unfoldable pub new_message : String → List ℕ → Priority → String → ℕ → ℕ → QueuedMessage
new_message peer payload priority title ttl now = record {
  peer_lxmf_hash = peer;
  payload = payload;
  priority = priority;
  title = title;
  ttl = ttl;
  enqueued_at = now;
  size_bytes = length payload + 128;
}

abbrev pub expired : ℕ → QueuedMessage → Bool
expired now msg = ltb msg.ttl (now - msg.enqueued_at)

abbrev pub fresh : ℕ → QueuedMessage → Bool
fresh now msg = not (expired now msg)
