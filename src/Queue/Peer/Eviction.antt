-- ===== src/Queue/Peer/Eviction.antt =====
-- `enqueue`: what it drops and what it keeps.
use retiboard.Base.{
  ℕ, suc, ◌+◌, ◌-◌, ◌≤◌, ◌<◌, ◌≡◌, refl, pair_eq, drop-nil, leb, Bool-cases, inl, inr, arith, true,
  List, [], ◌∷◌, length, drop, length-drop, length-append, filter_by,
}
use retiboard.Queue.Message.{QueuedMessage, is_control, fresh}
use retiboard.Queue.Peer.{PeerQueue, depth, evict, append_tier, enqueue}

-- How many messages have to go before one more fits.
abbrev pub over : ℕ → List QueuedMessage → List QueuedMessage → ℕ
over max_depth data_tier control_tier = length control_tier + length data_tier + 1 - max_depth

evict_lem :
    (max_depth : ℕ) (data_tier control_tier : List QueuedMessage)
    → 0 < max_depth
    → evict max_depth data_tier control_tier ≡ (
      drop (over max_depth data_tier control_tier) data_tier,
      drop (over max_depth data_tier control_tier - length data_tier) control_tier,
    )
unfolding evict
evict_lem max_depth [] [] pos = let e : 0 + 0 + 1 - max_depth ≡ 0 = omega arith in rw e refl
evict_lem max_depth [] (c ∷ cs) pos = elim (Bool-cases (leb max_depth (length (c ∷ cs)))) [
  | inl full ↦
      let e : suc (length cs) + 0 + 1 - max_depth ≡ suc (length cs + 0 + 1 - max_depth) =
        ground arith in
      let k : ℕ = length cs + 0 + 1 - max_depth in
      let e' : suc k - 0 ≡ suc (k - 0) = omega arith in
      rw (full, evict_lem max_depth [] cs pos, e, e') (pair_eq (drop-nil _) refl)
  | inr room ↦ let e : suc (length cs) + 0 + 1 - max_depth ≡ 0 = ground arith in rw (room, e) refl
]
evict_lem max_depth (d ∷ ds) cs pos =
    elim (Bool-cases (leb max_depth (length cs + length (d ∷ ds)))) [
      | inl full ↦
          let e : length cs + suc (length ds) + 1 - max_depth
              ≡ suc (length cs + length ds + 1 - max_depth) =
            ground arith in
          let k : ℕ = length cs + length ds + 1 - max_depth in
          let e' : suc k - suc (length ds) ≡ k - length ds = omega arith in
          rw (full, evict_lem max_depth ds cs pos, e, e') refl
      | inr room ↦
          let e : length cs + suc (length ds) + 1 - max_depth ≡ 0 = ground arith in
          let e' : 0 - suc (length ds) ≡ 0 = omega arith in rw (room, e, e') refl
    ]

depth-append_tier : (q : PeerQueue) (msg : QueuedMessage) → depth (append_tier q msg) ≡ depth q + 1
unfolding append_tier
depth-append_tier q msg = elim (Bool-cases (is_control msg.priority)) [
  | inl e ↦ rw e (omega (arith, length-append q.control_tier (msg ∷ [])))
  | inr e ↦ rw e (omega (arith, length-append q.data_tier (msg ∷ [])))
]

-- The fresh messages of the tiers.
abbrev pub fresh_control : ℕ → PeerQueue → List QueuedMessage
fresh_control now q = filter_by (fresh now) q.control_tier

abbrev pub fresh_data : ℕ → PeerQueue → List QueuedMessage
fresh_data now q = filter_by (fresh now) q.data_tier

enqueue_tiers :
    (now : ℕ) (q : PeerQueue) (msg : QueuedMessage)
    → 0 < q.max_depth
    → let k = over q.max_depth (fresh_data now q) (fresh_control now q) in
      enqueue now q msg ≡ (
        append_tier
            (record q {
              control_tier = drop (k - length (fresh_data now q)) (fresh_control now q);
              data_tier = drop k (fresh_data now q);
            })
            msg,
        true,
      )
unfolding enqueue
enqueue_tiers now q msg pos =
    rw (evict_lem q.max_depth (fresh_data now q) (fresh_control now q) pos) refl

-- With a limit of at least 1, `enqueue` always accepts the message. It first drops what has expired
-- and then, if the queue would exceed its limit, just as many messages as are too many: the oldest
-- data messages, and the oldest control messages only once no data message is left. The message
-- goes to the end of its tier, and the queue is within its limit then, whatever it was before.
pub enqueue_lem :
    (now : ℕ) (q : PeerQueue) (msg : QueuedMessage)
    → 0 < q.max_depth
    → let k = over q.max_depth (fresh_data now q) (fresh_control now q) in
      (enqueue now q msg ≡ (
        append_tier
            (record q {
              control_tier = drop (k - length (fresh_data now q)) (fresh_control now q);
              data_tier = drop k (fresh_data now q);
            })
            msg,
        true,
      ))
      × (depth (enqueue now q msg).0 ≤ q.max_depth)
enqueue_lem now q msg pos = (
  enqueue_tiers now q msg pos,
  rw (enqueue_tiers now q msg pos) (
      omega (
        arith,
        depth-append_tier _ msg,
        length-drop (over q.max_depth (fresh_data now q) (fresh_control now q)) (fresh_data now q),
        length-drop
            (over q.max_depth (fresh_data now q) (fresh_control now q) - length (fresh_data now q))
            (fresh_control now q),
      )),
)
