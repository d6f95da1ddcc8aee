-- ===== src/Queue/Peer.antt =====
-- `PeerQueue`: two tiers of messages, oldest first.
pub mod Eviction
pub mod Order
pub mod Requeue
use retiboard.Base.{
  ℕ, ◌+◌, ◌-◌, leb, ◌==◌, if◌then◌else◌, Bool, true, String, List, [], ◌∷◌, ◌++◌, length, filter_by,
  sum_by, Option, none, some,
}
use mathlib.Core.List.{reverse}
use retiboard.Queue.Message.{QueuedMessage, is_control, expired, fresh}

pub record PeerQueue : Type 0 where
  pub peer_lxmf_hash : String
  pub max_depth : ℕ
  pub control_tier : List QueuedMessage
  pub data_tier : List QueuedMessage

unfoldable pub new_queue : String → ℕ → PeerQueue
new_queue peer max_depth = record {
  peer_lxmf_hash = peer;
  max_depth = max_depth;
  control_tier = [];
  data_tier = [];
}

abbrev pub depth : PeerQueue → ℕ
depth q = length q.control_tier + length q.data_tier

abbrev pub bytes_of : List QueuedMessage → ℕ
bytes_of = sum_by (λ m. m.size_bytes)

abbrev pub total_bytes : PeerQueue → ℕ
total_bytes q = bytes_of q.control_tier + bytes_of q.data_tier

abbrev pub empty : PeerQueue → Bool
empty q = depth q == 0

-- The queue without its expired messages, and how many they were.
unfoldable pub sweep_expired : ℕ → PeerQueue → PeerQueue × ℕ
sweep_expired now q =
    let control_tier = filter_by (fresh now) q.control_tier in
    let data_tier = filter_by (fresh now) q.data_tier in
    (
      record q { control_tier = control_tier; data_tier = data_tier },
      (length q.control_tier - length control_tier) + (length q.data_tier - length data_tier),
    )

-- The `while` loop of `enqueue`: the tiers after the eviction, data first.
unfoldable pub evict :
    ℕ → (data_tier control_tier : List QueuedMessage) → List QueuedMessage × List QueuedMessage
evict max_depth [] [] = ([], [])
evict max_depth [] (c ∷ cs) =
    if leb max_depth (length (c ∷ cs)) then evict max_depth [] cs else ([], c ∷ cs)
evict max_depth (d ∷ ds) cs =
    if leb max_depth (length cs + length (d ∷ ds)) then evict max_depth ds cs else (d ∷ ds, cs)

unfoldable pub append_tier : PeerQueue → QueuedMessage → PeerQueue
append_tier q msg =
    if is_control msg.priority
    then record q { control_tier = q.control_tier ++ msg ∷ [] }
    else record q { data_tier = q.data_tier ++ msg ∷ [] }

unfoldable pub enqueue : ℕ → PeerQueue → QueuedMessage → PeerQueue × Bool
unfolding sweep_expired append_tier
enqueue now q msg =
    let swept = (sweep_expired now q).0 in
    let (data_tier, control_tier) = evict swept.max_depth swept.data_tier swept.control_tier in
    (append_tier (record swept { control_tier = control_tier; data_tier = data_tier }) msg, true)

-- One `while` loop of `dequeue`: the first message that has not expired, and what lies behind it.
unfoldable pub pop_fresh : ℕ → List QueuedMessage → Option QueuedMessage × List QueuedMessage
pop_fresh now [] = (none, [])
pop_fresh now (m ∷ ms) = if expired now m then pop_fresh now ms else (some m, ms)

-- The second loop of `dequeue`, once the first has found nothing.
unfoldable pub dequeue_data :
    PeerQueue → Option QueuedMessage × List QueuedMessage → PeerQueue × Option QueuedMessage
dequeue_data q (found, rest) = (record q { data_tier = rest }, found)

unfoldable pub dequeue_control :
    ℕ → PeerQueue → Option QueuedMessage × List QueuedMessage → PeerQueue × Option QueuedMessage
unfolding dequeue_data pop_fresh
dequeue_control now q (some msg, rest) = (record q { control_tier = rest }, some msg)
dequeue_control now q (none, rest) =
    dequeue_data (record q { control_tier = rest }) (pop_fresh now q.data_tier)

unfoldable pub dequeue : ℕ → PeerQueue → PeerQueue × Option QueuedMessage
unfolding dequeue_control
dequeue now q = dequeue_control now q (pop_fresh now q.control_tier)

-- One `while` loop of `drain_all`.
unfoldable pub drain_tier : ℕ → List QueuedMessage → List QueuedMessage → List QueuedMessage
drain_tier now result [] = result
drain_tier now result (m ∷ ms) =
    drain_tier now (if expired now m then result else result ++ m ∷ []) ms

unfoldable pub drain_all : ℕ → PeerQueue → PeerQueue × List QueuedMessage
unfolding drain_tier
drain_all now q = (
  record q { control_tier = []; data_tier = [] },
  drain_tier now (drain_tier now [] q.control_tier) q.data_tier,
)

-- The body of the loop of `requeue_batch`.
unfoldable pub push_front : ℕ → PeerQueue → QueuedMessage → PeerQueue
push_front now q msg =
    if expired now msg
    then q
    else if is_control msg.priority
    then record q { control_tier = msg ∷ q.control_tier }
    else record q { data_tier = msg ∷ q.data_tier }

unfoldable pub push_all : ℕ → PeerQueue → List QueuedMessage → PeerQueue
unfolding push_front
push_all now q [] = q
push_all now q (m ∷ ms) = push_all now (push_front now q m) ms

unfoldable pub requeue_batch : ℕ → PeerQueue → List QueuedMessage → PeerQueue
unfolding push_all
requeue_batch now q messages = push_all now q (reverse messages)
