-- ===== src/Queue/Peer/Order.antt =====
-- The order in which messages leave a queue.
use retiboard.Base.{
  ℕ, ◌≡◌, refl, ◌∙◌, sym, ap, pair_eq, Bool-cases, inl, inr, List, [], ◌∷◌, ◌++◌, filter_by,
  append-nil, append_assoc, Option, none, some,
}
use retiboard.Queue.Message.{QueuedMessage, expired, fresh}
use retiboard.Queue.Peer.{
  PeerQueue, pop_fresh, dequeue_data, dequeue_control, dequeue, drain_tier, drain_all,
}

drain_tier_lem :
    (now : ℕ) (result ms : List QueuedMessage)
    → drain_tier now result ms ≡ result ++ filter_by (fresh now) ms
unfolding drain_tier filter_by
drain_tier_lem now result [] = sym (append-nil result)
drain_tier_lem now result (m ∷ ms) = elim (Bool-cases (expired now m)) [
  | inl e ↦ rw e (drain_tier_lem now result ms)
  | inr e ↦ rw e (drain_tier_lem now (result ++ m ∷ []) ms ∙ append_assoc result (m ∷ []) _)
]

-- `drain_all` empties the queue and returns all that has not expired: the control messages in their
-- order, then the data messages in theirs.
drain_all_lem :
    (now : ℕ) (q : PeerQueue)
    → drain_all now q ≡ (
      record q { control_tier = []; data_tier = [] },
      filter_by (fresh now) q.control_tier ++ filter_by (fresh now) q.data_tier,
    )
unfolding drain_all
drain_all_lem now q = pair_eq refl (
    drain_tier_lem now _ q.data_tier
    ∙ ap (λ r. r ++ filter_by (fresh now) q.data_tier) (drain_tier_lem now [] q.control_tier))

abbrev pub drained : ℕ → PeerQueue → List QueuedMessage
drained now q = (drain_all now q).1

-- What a loop of `dequeue` has found, and what would still come out behind it.
abbrev handed : ℕ → Option QueuedMessage × List QueuedMessage → List QueuedMessage
handed now (none, ms) = []
handed now (some m, ms) = m ∷ filter_by (fresh now) ms

pop_fresh_lem :
    (now : ℕ) (ms : List QueuedMessage) → filter_by (fresh now) ms ≡ handed now (pop_fresh now ms)
unfolding pop_fresh filter_by
pop_fresh_lem now [] = refl
pop_fresh_lem now (m ∷ ms) = elim (Bool-cases (expired now m)) [
  | inl e ↦ rw e (pop_fresh_lem now ms)
  | inr e ↦ rw e refl
]

pop_fresh-none :
    (now : ℕ) (ms : List QueuedMessage) {rest : List QueuedMessage}
    → pop_fresh now ms ≡ (none, rest)
    → rest ≡ []
unfolding pop_fresh
pop_fresh-none now [] e = ap (λ p. p.1) (sym e)
pop_fresh-none now (m ∷ ms) {rest} e = elim (Bool-cases (expired now m)) [
  | inl old ↦ pop_fresh-none now ms (rw old at e)
  | inr new ↦ let clash : some m ≡ none = ap (λ p. p.0) (rw new at e) in cc
]

-- What `dequeue` has found, and what `drain_all` would return after it.
abbrev pub next_and_rest : ℕ → PeerQueue × Option QueuedMessage → List QueuedMessage
next_and_rest now (q, none) = []
next_and_rest now (q, some m) = m ∷ drained now q

pub drained-eq :
    (now : ℕ) (q : PeerQueue)
    → drained now q ≡ filter_by (fresh now) q.control_tier ++ filter_by (fresh now) q.data_tier
drained-eq now q = ap (λ p. p.1) (drain_all_lem now q)

dequeue_data_lem :
    (now : ℕ) (q : PeerQueue) (p : Option QueuedMessage × List QueuedMessage)
    → filter_by (fresh now) q.data_tier ≡ handed now p
    → filter_by (fresh now) q.control_tier ≡ []
    → drained now q ≡ next_and_rest now (dequeue_data (record q { control_tier = [] }) p)
unfolding dequeue_data filter_by
dequeue_data_lem now q (none, rest) e empty = drained-eq now q ∙ rw (empty, e) refl
dequeue_data_lem now q (some m, rest) e empty =
    drained-eq now q ∙ rw (empty, e) (ap (◌∷◌ m) (sym (drained-eq now _)))

dequeue_control_lem :
    (now : ℕ) (q : PeerQueue) (p : Option QueuedMessage × List QueuedMessage)
    → pop_fresh now q.control_tier ≡ p
    → drained now q ≡ next_and_rest now (dequeue_control now q p)
unfolding dequeue_control filter_by
dequeue_control_lem now q (none, rest) e =
    let empty : filter_by (fresh now) q.control_tier ≡ [] =
      pop_fresh_lem now q.control_tier ∙ ap (handed now) e in
    let gone : rest ≡ [] = pop_fresh-none now q.control_tier e in
    rw gone
      (dequeue_data_lem now q (pop_fresh now q.data_tier) (pop_fresh_lem now q.data_tier) empty)
dequeue_control_lem now q (some m, rest) e =
    let first : filter_by (fresh now) q.control_tier ≡ m ∷ filter_by (fresh now) rest =
      pop_fresh_lem now q.control_tier ∙ ap (handed now) e in
    drained-eq now q ∙ rw first (ap (◌∷◌ m) (sym (drained-eq now _)))

-- `dequeue` returns the first of the messages that `drain_all` would return, and leaves the others;
-- it returns nothing exactly where `drain_all` would return no message. So repeated calls hand out
-- the messages that have not expired, all control messages before all data messages, oldest first.
pub drain_all-dequeue :
    (now : ℕ) (q : PeerQueue) → drained now q ≡ next_and_rest now (dequeue now q)
unfolding dequeue
drain_all-dequeue now q = dequeue_control_lem now q (pop_fresh now q.control_tier) refl
