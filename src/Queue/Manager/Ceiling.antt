-- ===== src/Queue/Manager/Ceiling.antt =====
-- The memory ceiling of all queues together.
use retiboard.Base.{
  text_key, ℕ, ◌+◌, ◌≤◌, ◌≡◌, refl, Bool-cases, Option-cases, ltb, inl, inr, ◌⊎◌, arith, true,
  false, String, List, [], ◌∷◌, length, sum_by, filter_by, ◌↔◌, sum_by-append, sum_by-filter_by-le,
  Option,
}
use retiboard.Base.Dict.{lookup, at_option, total-insert}
use retiboard.Queue.Message.{QueuedMessage, Priority, is_control, fresh, new_message}
use retiboard.Queue.Peer.{PeerQueue, new_queue, total_bytes, bytes_of, append_tier, evict, enqueue}
use retiboard.Queue.Manager.{MessageQueueManager, all_bytes, queue_of, default_ttl, queue_message}

evict-bytes :
    (max_depth : ℕ) (ds cs : List QueuedMessage)
    → bytes_of (evict max_depth ds cs).0 + bytes_of (evict max_depth ds cs).1
      ≤ bytes_of ds + bytes_of cs
unfolding evict sum_by
evict-bytes max_depth [] [] = omega arith
evict-bytes max_depth [] (c ∷ cs) = ground (arith, evict-bytes max_depth [] cs)
evict-bytes max_depth (d ∷ ds) cs = ground (arith, evict-bytes max_depth ds cs)

total_bytes-append_tier :
    (q : PeerQueue) (msg : QueuedMessage)
    → total_bytes (append_tier q msg) ≡ total_bytes q + msg.size_bytes
unfolding append_tier sum_by
total_bytes-append_tier q msg = elim (Bool-cases (is_control msg.priority)) [
  | inl e ↦ rw e (omega (arith, sum_by-append (λ m. m.size_bytes) q.control_tier (msg ∷ [])))
  | inr e ↦ rw e (omega (arith, sum_by-append (λ m. m.size_bytes) q.data_tier (msg ∷ [])))
]

total_bytes-enqueue :
    (now : ℕ) (q : PeerQueue) (msg : QueuedMessage)
    → total_bytes (enqueue now q msg).0 ≤ total_bytes q + msg.size_bytes
unfolding enqueue
total_bytes-enqueue now q msg =
    let cs = filter_by (fresh now) q.control_tier in
    let ds = filter_by (fresh now) q.data_tier in
    omega (
      arith,
      total_bytes-append_tier
          (record q {
            control_tier = (evict q.max_depth ds cs).1;
            data_tier = (evict q.max_depth ds cs).0;
          })
          msg,
      evict-bytes q.max_depth ds cs,
      sum_by-filter_by-le (λ m. m.size_bytes) (fresh now) q.control_tier,
      sum_by-filter_by-le (λ m. m.size_bytes) (fresh now) q.data_tier,
    )

total_bytes-queue_of :
    (m : MessageQueueManager) (peer : String)
    → total_bytes (queue_of m peer) ≡ at_option total_bytes (lookup peer m.queues)
unfolding new_queue sum_by
total_bytes-queue_of m peer = elim (Option-cases (lookup peer m.queues)) [
  | inl e ↦ rw e refl
  | inr (q, e) ↦ rw e refl
]

enqueue-true : (now : ℕ) (q : PeerQueue) (msg : QueuedMessage) → (enqueue now q msg).1 ≡ true
unfolding enqueue
enqueue-true now q msg = refl

-- `queue_message` accepts a message exactly when its size, with 128 bytes of overhead, fits under
-- the ceiling beside all that is queued. A refusal changes nothing, and after an acceptance all
-- queues together are within the ceiling, whatever they held before.
pub queue_message_lem :
    (now : ℕ) (m : MessageQueueManager) (peer : String) (payload : List ℕ) (title : String)
    (priority : Priority) (ttl : Option ℕ)
    → let r = queue_message now m peer payload title priority ttl in
      ((r.1 ≡ true) ↔ (all_bytes m + (length payload + 128) ≤ m.max_total_bytes))
      × ((r ≡ (m, false)) ⊎ ((r.1 ≡ true) × (all_bytes r.0 ≤ r.0.max_total_bytes)))
unfolding queue_message new_message
queue_message_lem now m peer payload title priority ttl =
    let msg = new_message peer payload priority title (default_ttl priority ttl) now in
    let q = queue_of m peer in
    let r = enqueue now q msg in
    elim (Bool-cases (ltb m.max_total_bytes (all_bytes m + msg.size_bytes))) [
      | inl full ↦ rw full (ground arith, inl refl)
      | inr room ↦
          rw (room, enqueue-true now q msg)
            (
              ground arith,
              inr (
                refl,
                ground (
                  arith,
                  total-insert total_bytes peer r.0 m.queues,
                  total_bytes-enqueue now q msg,
                  total_bytes-queue_of m peer,
                ),
              ),
            )
    ]
