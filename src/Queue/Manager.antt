-- ===== src/Queue/Manager.antt =====
-- `MessageQueueManager`: a queue for each peer that has messages, under a memory ceiling.
pub mod Ceiling
pub mod Sweep
use retiboard.Base.{
  text_key, ℕ, ◌+◌, ◌*◌, ltb, if◌then◌else◌, Bool, false, not, String, List, [], ◌∷◌, Option, none,
  some,
}
use mathlib.Core.Option
use retiboard.Base.Dict.{Dict, lookup, insert, erase, total}
use retiboard.Queue.Message.{
  QueuedMessage, Priority, is_control, new_message, queue_control_ttl, queue_data_ttl,
}
use retiboard.Queue.Peer
use retiboard.Queue.Peer.{
  PeerQueue, new_queue, depth, total_bytes, empty, enqueue, drain_all, requeue_batch,
}

pub record MessageQueueManager : Type 0 where
  pub queues : Dict String PeerQueue
  pub max_depth : ℕ
  pub max_total_bytes : ℕ

unfoldable pub new_manager : ℕ → ℕ → MessageQueueManager
new_manager max_depth_per_peer max_total_memory_mb = record {
  queues = [];
  max_depth = max_depth_per_peer;
  max_total_bytes = max_total_memory_mb * 1024 * 1024;
}

abbrev pub all_bytes : MessageQueueManager → ℕ
all_bytes m = total total_bytes m.queues

abbrev pub total_depth : MessageQueueManager → ℕ
total_depth m = total depth m.queues

-- The queue of a peer, a new one if there is none.
abbrev pub queue_of : MessageQueueManager → String → PeerQueue
queue_of m peer = Option.get_or (lookup peer m.queues) (new_queue peer m.max_depth)

unfoldable pub default_ttl : Priority → Option ℕ → ℕ
default_ttl priority (some ttl) = ttl
default_ttl priority none = if is_control priority then queue_control_ttl else queue_data_ttl

unfoldable pub queue_message :
    ℕ
    → MessageQueueManager
    → String
    → List ℕ
    → String
    → Priority
    → Option ℕ
    → MessageQueueManager × Bool
unfolding default_ttl
queue_message now m peer payload title priority ttl =
    let msg = new_message peer payload priority title (default_ttl priority ttl) now in
    if ltb m.max_total_bytes (all_bytes m + msg.size_bytes)
    then (m, false)
    else let (q, done) = enqueue now (queue_of m peer) msg in
      (record m { queues = insert peer q m.queues }, done)

-- `flush_peer` where the peer has a queue.
unfoldable pub flush_queue :
    ℕ → MessageQueueManager → String → PeerQueue → MessageQueueManager × List QueuedMessage
flush_queue now m peer q =
    if empty q
    then (m, [])
    else let (drained, messages) = drain_all now q in
      (
        record m {
          queues = if empty drained then erase peer m.queues else insert peer drained m.queues;
        },
        messages,
      )

unfoldable pub flush_peer :
    ℕ → MessageQueueManager → String → MessageQueueManager × List QueuedMessage
unfolding flush_queue
flush_peer now m peer = elim (lookup peer m.queues) [
  | none ↦ (m, [])
  | some q ↦ flush_queue now m peer q
]

unfoldable pub requeue_failed :
    ℕ → MessageQueueManager → String → List QueuedMessage → MessageQueueManager
requeue_failed now m peer messages = record m {
  queues = insert peer (requeue_batch now (queue_of m peer) messages) m.queues;
}

unfoldable pub has_queued : MessageQueueManager → String → Bool
has_queued m peer = elim (lookup peer m.queues) [ none ↦ false | some q ↦ not (empty q) ]

-- The loop over all queues, and the removal of those that are empty then.
unfoldable pub sweep_queues : ℕ → Dict String PeerQueue → Dict String PeerQueue × ℕ
sweep_queues now [] = ([], 0)
sweep_queues now ((peer, q) ∷ queues) =
    let (swept, removed) = Peer.sweep_expired now q in
    let (rest, others) = sweep_queues now queues in
    (if empty swept then rest else (peer, swept) ∷ rest, removed + others)

unfoldable pub sweep_expired : ℕ → MessageQueueManager → MessageQueueManager × ℕ
unfolding sweep_queues
sweep_expired now m =
    let (queues, removed) = sweep_queues now m.queues in (record m { queues = queues }, removed)

unfoldable pub peer_queue_depth : MessageQueueManager → String → ℕ
peer_queue_depth m peer = elim (lookup peer m.queues) [ none ↦ 0 | some q ↦ depth q ]
