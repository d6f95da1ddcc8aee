-- ===== src/Queue/Manager/Sweep.antt =====
-- What leaves the queues: a flush for one peer, and the periodic sweep.
use retiboard.Base.{
  text_key, ℕ, ◌+◌, ◌≡◌, ◌≢◌, refl, ◌∙◌, sym, Bool-cases, Option-cases, inl, inr, arith, true,
  false, String, List, [], ◌∷◌, ◌++◌, length, All, filter_by, filter_by-All, length-filter_by-le,
}
use retiboard.Base.Dict.{Dict, lookup, total, lookup-erase_self, lookup-erase_ne}
use retiboard.Queue.Message.{QueuedMessage, fresh}
use retiboard.Queue.Peer
use retiboard.Queue.Peer.{PeerQueue, new_queue, depth, empty, drain_all}
use retiboard.Queue.Peer.Order.{drained, drained-eq}
use retiboard.Queue.Manager.{
  MessageQueueManager, total_depth, queue_of, flush_peer, has_queued, sweep_queues, sweep_expired,
}

nothing_drained : (now : ℕ) (q : PeerQueue) → empty q ≡ true → drained now q ≡ []
unfolding filter_by
nothing_drained now q e =
    drained-eq now q ∙ empty_tiers now q.control_tier q.data_tier (ground arith)
  where
    empty_tiers :
        (now : ℕ) (cs ds : List QueuedMessage)
        → length cs + length ds ≡ 0
        → filter_by (fresh now) cs ++ filter_by (fresh now) ds ≡ []
    empty_tiers now [] [] h = refl
    empty_tiers now (c ∷ cs) ds h = absurd (omega arith)
    empty_tiers now [] (d ∷ ds) h = absurd (omega arith)

-- `flush_peer` returns what draining the peer's queue returns, nothing if there is no queue. After
-- it no message is queued for the peer, and the queues of the other peers are as they were.
flush_peer_lem :
    (now : ℕ) (m : MessageQueueManager) (peer other : String)
    → peer ≢ other
    → ((flush_peer now m peer).1 ≡ drained now (queue_of m peer))
      × (has_queued (flush_peer now m peer).0 peer ≡ false)
      × (lookup other (flush_peer now m peer).0.queues ≡ lookup other m.queues)
unfolding flush_peer has_queued drain_all new_queue
flush_peer_lem now m peer other apart = elim (Option-cases (lookup peer m.queues)) [
  | inl e ↦ rw (e, flush_peer) (refl, rw (e, has_queued) refl, refl)
  | inr (q, e) ↦ elim (Bool-cases (empty q)) [
    | inl b ↦
        rw (e, flush_peer, b) (sym (nothing_drained now q b), rw (e, has_queued, b) refl, refl)
    | inr b ↦
        rw (e, flush_peer, b)
          (
            refl,
            rw (lookup-erase_self peer m.queues, has_queued) refl,
            lookup-erase_ne peer other m.queues apart,
          )
  ]
]

-- Every queue that is left holds a message, and none of its messages has expired.
abbrev IsSwept : ℕ → Dict String PeerQueue → Type 0
IsSwept now = All λ e.
    (empty e.1 ≡ false)
    × All (λ m. fresh now m ≡ true) e.1.control_tier
    × All (λ m. fresh now m ≡ true) e.1.data_tier

sweep_queues-IsSwept :
    (now : ℕ) (queues : Dict String PeerQueue) → IsSwept now (sweep_queues now queues).0
unfolding sweep_queues Peer.sweep_expired
sweep_queues-IsSwept now [] = tt
sweep_queues-IsSwept now ((peer, q) ∷ queues) =
    let swept = (Peer.sweep_expired now q).0 in
    elim (Bool-cases (empty swept)) [
      | inl e ↦ rw e (sweep_queues-IsSwept now queues)
      | inr e ↦ rw e (
        (e, filter_by-All (fresh now) q.control_tier, filter_by-All (fresh now) q.data_tier),
        sweep_queues-IsSwept now queues,
      )
    ]

depth-sweep_expired :
    (now : ℕ) (q : PeerQueue)
    → depth (Peer.sweep_expired now q).0 + (Peer.sweep_expired now q).1 ≡ depth q
unfolding Peer.sweep_expired
depth-sweep_expired now q = omega (
  arith,
  length-filter_by-le (fresh now) q.control_tier,
  length-filter_by-le (fresh now) q.data_tier,
)

sweep_queues-total :
    (now : ℕ) (queues : Dict String PeerQueue)
    → total depth (sweep_queues now queues).0 + (sweep_queues now queues).1 ≡ total depth queues
unfolding sweep_queues total
sweep_queues-total now [] = refl
sweep_queues-total now ((peer, q) ∷ queues) =
    let swept = (Peer.sweep_expired now q).0 in
    elim (Bool-cases (empty swept)) [
      | inl e ↦ rw e (ground (arith, depth-sweep_expired now q, sweep_queues-total now queues))
      | inr e ↦ rw e (omega (arith, depth-sweep_expired now q, sweep_queues-total now queues))
    ]

-- The number that the sweep returns is the number of messages that are gone, no expired message is
-- left, and no empty queue.
sweep_expired_lem :
    (now : ℕ) (m : MessageQueueManager)
    → IsSwept now (sweep_expired now m).0.queues
      × (total_depth (sweep_expired now m).0 + (sweep_expired now m).1 ≡ total_depth m)
unfolding sweep_expired
sweep_expired_lem now m = (sweep_queues-IsSwept now m.queues, sweep_queues-total now m.queues)
