-- ===== src/Swarm/Start.antt =====
-- A new `SwarmFetcher`.
use retiboard.Base.{
  nat_key, text_key, ℕ, zero, suc, ◌≡◌, refl, inl, inr, Bool-cases, Option-cases, arith, Bool,
  truthy, String, List, [], ◌∷◌, Option, some, none,
}
use retiboard.Base.Int.{ℤ}
use retiboard.Base.Dict.{Dict, lookup, insert, lookup-insert}
use retiboard.Base.Sets.{contains}
use retiboard.Swarm.State.{
  PriorityMode, SwarmPeerState, SwarmChunkState, SwarmFetcher, new_peer, new_chunk, new_peers,
  new_chunks, update_all, update_peer_availability, new_fetcher,
}
use retiboard.Swarm.Bounds.{IsBounded}
use retiboard.Swarm.Tracking.{IsTracked}

pub record IsSound (s : SwarmFetcher) : Type 0 where
  pub tracked : IsTracked s
  pub bounded : IsBounded s

pub update_peer_availability-IsSound :
    (s : SwarmFetcher) (peer : String) (ranges : List (ℤ × ℤ))
    → IsSound s
    → IsSound (update_peer_availability s peer ranges)
unfolding update_peer_availability
update_peer_availability-IsSound s peer ranges h = record {
  tracked = record { agree = h.tracked.agree; indexed = h.tracked.indexed };
  bounded = record { total = h.bounded.total; each = h.bounded.each };
}

update_all-IsSound :
    (ranges : Dict String (List (ℤ × ℤ))) (s : SwarmFetcher)
    → IsSound s
    → IsSound (update_all s ranges)
unfolding update_all
update_all-IsSound [] s h = h
update_all-IsSound ((peer, r) ∷ ranges) s h =
    update_all-IsSound ranges _ (update_peer_availability-IsSound s peer r h)

abbrev idle : Option SwarmPeerState → ℕ
idle found = elim found [ none ↦ 0 | some p ↦ p.in_flight ]

new_peers-idle :
    (ps : List String) (peers : Dict String SwarmPeerState) (peer : String)
    → ((q : String) → idle (lookup q peers) ≡ 0)
    → idle (lookup peer (new_peers ps peers)) ≡ 0
unfolding new_peers new_peer
new_peers-idle [] peers peer h = h peer
new_peers-idle (p ∷ ps) peers peer h = elim (Bool-cases (truthy p)) [
  | inr e ↦ rw (e, new_peers) (new_peers-idle ps peers peer h)
  | inl e ↦
      rw (e, new_peers)
        (new_peers-idle ps (insert p (new_peer p) peers) peer
          (λ q. ground (arith, h q, lookup-insert p q (new_peer p) peers)))
]

new_chunks-new :
    (start count i : ℕ) (c : SwarmChunkState)
    → lookup i (new_chunks start count) ≡ some c
    → (c.chunk_index ≡ i) × (c.active_request_ids ≡ [])
unfolding new_chunks new_chunk lookup
new_chunks-new start zero i c h = absurd (ground arith)
new_chunks-new start (suc count) i c h = ground (arith, new_chunks-new (suc start) count i c)

abbrev blank : (SwarmFetcher → Type 0)
blank s =
    (s.requests ≡ [])
    × ((i : ℕ) (c : SwarmChunkState)
        → lookup i s.chunks ≡ some c
        → (c.chunk_index ≡ i) × (c.active_request_ids ≡ []))
    × ((q : String) → idle (lookup q s.peers) ≡ 0)

blank-IsSound : (s : SwarmFetcher) → blank s → IsSound s
unfolding lookup contains
blank-IsSound s h = record {
  tracked = record {
    agree = λ i rid. elim (Option-cases (lookup i s.chunks)) [
      | inl e ↦ ground (arith, h.0)
      | inr (c, e) ↦ ground (arith, h.0, h.1 i c e)
    ];
    indexed = λ i c e. (h.1 i c e).0;
  };
  bounded = record { total = ground (arith, h.0); each = λ peer. ground (arith, h.2 peer) };
}

pub new_fetcher-IsSound :
    (peers : List String) (chunk_count : ℕ) (total per_peer : Option ℕ) (attempts : ℕ)
    (mode : PriorityMode) (ranges : Dict String (List (ℤ × ℤ))) (low_bandwidth : Bool)
    → IsSound (new_fetcher peers chunk_count total per_peer attempts mode ranges low_bandwidth)
unfolding new_fetcher lookup
new_fetcher-IsSound peers chunk_count total per_peer attempts mode ranges low_bandwidth =
    update_all-IsSound ranges _ (
      blank-IsSound _
        (refl, new_chunks-new 0 chunk_count, λ q. new_peers-idle peers [] q (λ r. refl)))
