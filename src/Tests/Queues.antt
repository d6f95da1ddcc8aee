-- ===== src/Tests/Queues.antt =====
-- Two peers with messages of both priorities; the time is 1000 seconds.
use retiboard.Base.{
  text_key, ℕ, ◌+◌, ◌-◌, ◌≤◌, ◌≡◌, ◌↔◌, ◌⊎◌, refl, arith, true, false, List, [], ◌∷◌, length, drop,
  filter_by, none,
}
use retiboard.Base.Time.{seconds}
use retiboard.Queue.Message.{QueuedMessage, Priority, control, bulk, new_message, fresh}
use retiboard.Queue.Peer.{PeerQueue, depth, append_tier, enqueue, drain_all, dequeue, requeue_batch}
use retiboard.Queue.Peer.Eviction.{over, fresh_control, fresh_data, enqueue_lem}
use retiboard.Queue.Peer.Order.{drained, next_and_rest, drain_all-dequeue}
use retiboard.Queue.Peer.Requeue.{with_tiers, IsTiered, requeue_batch-drain_all}
use retiboard.Queue.Manager.{MessageQueueManager, all_bytes, queue_message}
use retiboard.Queue.Manager.Ceiling.{queue_message_lem}

abbrev now : ℕ
now = seconds 1000

abbrev message : Priority → List ℕ → ℕ → QueuedMessage
message priority payload ttl = new_message "a" payload priority "title" (seconds ttl) (seconds 900)

-- The first data message has expired.
abbrev mixed : PeerQueue
mixed = record {
  peer_lxmf_hash = "a";
  max_depth = 2;
  control_tier = message control (1 ∷ []) 300 ∷ [];
  data_tier = message bulk (2 ∷ []) 10 ∷ message bulk (3 ∷ []) 3600 ∷ [];
}

abbrev next : QueuedMessage
next = message control (4 ∷ 5 ∷ []) 300

abbrev manager : MessageQueueManager
manager = record {
  queues = ("a", mixed) ∷ ("b", record mixed { peer_lxmf_hash = "b" }) ∷ [];
  max_depth = 32;
  max_total_bytes = 1024;
}

mixed-IsTiered : IsTiered mixed
unfolding new_message
mixed-IsTiered = record { controls = (refl, tt); bulks = (refl, (refl, tt)) }

enqueue_lem_example :
    let k = over 2 (fresh_data now mixed) (fresh_control now mixed) in
    (enqueue now mixed next ≡ (
      append_tier
          (record mixed {
            control_tier = drop (k - length (fresh_data now mixed)) (fresh_control now mixed);
            data_tier = drop k (fresh_data now mixed);
          })
          next,
      true,
    ))
    × (depth (enqueue now mixed next).0 ≤ 2)
enqueue_lem_example = enqueue_lem now mixed next (omega arith)

drain_all-dequeue_example : drained now mixed ≡ next_and_rest now (dequeue now mixed)
drain_all-dequeue_example = drain_all-dequeue now mixed

requeue_batch-drain_all_example :
    requeue_batch now (drain_all now mixed).0 (drained now mixed)
    ≡ with_tiers mixed
        (filter_by (fresh now) mixed.control_tier)
        (filter_by (fresh now) mixed.data_tier)
requeue_batch-drain_all_example = requeue_batch-drain_all now mixed mixed-IsTiered

queue_message_lem_example :
    let r = queue_message now manager "a" (7 ∷ []) "title" bulk none in
    ((r.1 ≡ true) ↔ (all_bytes manager + (length {A = ℕ} (7 ∷ []) + 128) ≤ 1024))
    × ((r ≡ (manager, false)) ⊎ ((r.1 ≡ true) × (all_bytes r.0 ≤ r.0.max_total_bytes)))
queue_message_lem_example = queue_message_lem now manager "a" (7 ∷ []) "title" bulk none
