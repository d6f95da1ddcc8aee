-- ===== src/Queue/Peer/Requeue.antt =====
-- `requeue_batch`: messages that could not be delivered.
use retiboard.Base.{
  ℕ, ◌≡◌, refl, ◌∙◌, sym, ap, Bool-cases, inl, inr, not, arith, Bool, true, false, List, [], ◌∷◌,
  ◌++◌, filter_by, filter_by-append, All, append-nil, ◌&&◌,
}
use mathlib.Core.List.{reverse, reverse-cons}
use retiboard.Queue.Message.{QueuedMessage, is_control, expired, fresh}
use retiboard.Queue.Peer.{PeerQueue, push_front, push_all, requeue_batch, drain_all}
use retiboard.Queue.Peer.Order.{drained, drained-eq}

-- The messages of a batch that go to a tier: those that are fresh and have its priority.
abbrev pub for_control : ℕ → QueuedMessage → Bool
for_control now m = fresh now m && is_control m.priority

abbrev pub for_data : ℕ → QueuedMessage → Bool
for_data now m = fresh now m && not (is_control m.priority)

-- A queue with other tiers.
abbrev pub with_tiers : PeerQueue → List QueuedMessage → List QueuedMessage → PeerQueue
with_tiers q control_tier data_tier = record q {
  control_tier = control_tier;
  data_tier = data_tier;
}

push_all-append :
    (now : ℕ) (q : PeerQueue) (ms ns : List QueuedMessage)
    → push_all now q (ms ++ ns) ≡ push_all now (push_all now q ms) ns
unfolding push_all
push_all-append now q [] ns = refl
push_all-append now q (m ∷ ms) ns = push_all-append now (push_front now q m) ms ns

push_front-tiers :
    (now : ℕ) (q : PeerQueue) (m : QueuedMessage) (cs ds : List QueuedMessage)
    → push_front now (with_tiers q (cs ++ q.control_tier) (ds ++ q.data_tier)) m
      ≡ with_tiers q
          ((filter_by (for_control now) (m ∷ []) ++ cs) ++ q.control_tier)
          ((filter_by (for_data now) (m ∷ []) ++ ds) ++ q.data_tier)
unfolding push_front filter_by
push_front-tiers now q m cs ds = elim (Bool-cases (expired now m)) [
  | inl e ↦ rw e refl
  | inr e ↦ elim (Bool-cases (is_control m.priority)) [
    | inl c ↦ rw (e, c) refl
    | inr c ↦ rw (e, c) refl
  ]
]

-- `requeue_batch` puts the messages of a batch that have not expired in front of the tiers of their
-- priorities, in the order of the batch, and changes nothing else: no message is evicted for them.
requeue_batch_lem :
    (now : ℕ) (q : PeerQueue) (messages : List QueuedMessage)
    → requeue_batch now q messages
      ≡ with_tiers q
          (filter_by (for_control now) messages ++ q.control_tier)
          (filter_by (for_data now) messages ++ q.data_tier)
unfolding requeue_batch filter_by
requeue_batch_lem now q [] = refl
requeue_batch_lem now q (m ∷ ms) =
    ap (push_all now q) (reverse-cons m ms)
    ∙ push_all-append now q (reverse ms) (m ∷ [])
    ∙ ap (λ r. push_all now r (m ∷ [])) (requeue_batch_lem now q ms)
    ∙ push_front-tiers now q m _ _
    ∙ (λ i.
        with_tiers q (sym (filter_by-append (for_control now) (m ∷ []) ms) i ++ q.control_tier)
          (sym (filter_by-append (for_data now) (m ∷ []) ms) i ++ q.data_tier))

-- Each tier holds the messages of its priority.
pub record IsTiered (q : PeerQueue) : Type 0 where
  pub controls : All (λ m. is_control m.priority ≡ true) q.control_tier
  pub bulks : All (λ m. is_control m.priority ≡ false) q.data_tier

module _ (now : ℕ) where
  keeps_controls :
      (ms : List QueuedMessage)
      → All (λ m. is_control m.priority ≡ true) ms
      → (filter_by (for_control now) (filter_by (fresh now) ms) ≡ filter_by (fresh now) ms)
        × (filter_by (for_data now) (filter_by (fresh now) ms) ≡ [])
  unfolding filter_by
  keeps_controls [] h = (refl, refl)
  keeps_controls (m ∷ ms) h = ground (arith, keeps_controls ms h.1)

  keeps_bulks :
      (ms : List QueuedMessage)
      → All (λ m. is_control m.priority ≡ false) ms
      → (filter_by (for_data now) (filter_by (fresh now) ms) ≡ filter_by (fresh now) ms)
        × (filter_by (for_control now) (filter_by (fresh now) ms) ≡ [])
  unfolding filter_by
  keeps_bulks [] h = (refl, refl)
  keeps_bulks (m ∷ ms) h = ground (arith, keeps_bulks ms h.1)

  -- A queue whose tiers hold the messages of their priorities is drained, and all that came out is
  -- put back: it is the queue as it was, less the expired messages, in the same order.
  pub requeue_batch-drain_all :
      (q : PeerQueue)
      → IsTiered q
      → requeue_batch now (drain_all now q).0 (drained now q)
        ≡ with_tiers q (filter_by (fresh now) q.control_tier) (filter_by (fresh now) q.data_tier)
  unfolding drain_all filter_by
  requeue_batch-drain_all q t =
      let (a, b) = keeps_controls q.control_tier t.controls in
      let (c, d) = keeps_bulks q.data_tier t.bulks in
      requeue_batch_lem now (drain_all now q).0 (drained now q)
      ∙ rw (drained-eq now q, filter_by-append, filter_by-append, a, d, b, c) (simp append-nil)
