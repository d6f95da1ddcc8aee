-- ===== src/Swarm/Counted.antt =====
-- The requests of each peer against its counter, as the two tables show them.
use retiboard.Base.{
  text_key, ℕ, ◌+◌, ◌-◌, ◌≤◌, ◌≡◌, inl, inr, Option-cases, arith, Bool, true, false, same,
  if◌then◌else◌, String, [], ◌∷◌, none, some, All,
}
use retiboard.Base.Dict.{
  Dict, lookup, insert, erase, change, total, values, total-insert, total-erase-le, lookup-change,
}
use retiboard.Swarm.State.{SwarmPeerState, ActiveRequest}

abbrev pub asks : String → ActiveRequest → ℕ
asks peer r = if same r.peer_lxmf_hash peer then 1 else 0

abbrev pub counter : String → Dict String SwarmPeerState → ℕ
counter peer peers = elim (lookup peer peers) [ none ↦ 0 | some p ↦ p.in_flight ]

abbrev pub IsKeyed : Dict String SwarmPeerState → Type 0
IsKeyed = All (λ e. e.1.peer_lxmf_hash ≡ e.0)

abbrev pub known : String → Dict String SwarmPeerState → Bool
known peer peers = elim (lookup peer peers) [ none ↦ false | some p ↦ true ]

-- No peer has more requests filed than its counter says and `late` more, and each peer stands under
-- its own hash.
pub record Counted (late : ℕ) (requests : Dict String ActiveRequest)
    (peers : Dict String SwarmPeerState) : Type 0 where
  pub counted : (peer : String) → total (asks peer) requests ≤ counter peer peers + late
  pub keyed : IsKeyed peers

pub insert-IsKeyed :
    (k : String) (p : SwarmPeerState) (d : Dict String SwarmPeerState)
    → p.peer_lxmf_hash ≡ k
    → IsKeyed d
    → IsKeyed (insert k p d)
unfolding insert
insert-IsKeyed k p [] own h = (own, tt)
insert-IsKeyed k p ((j, q) ∷ d) own h = ground (arith, insert-IsKeyed k p d own h.1)

lookup-own :
    (k : String) (p : SwarmPeerState) (d : Dict String SwarmPeerState)
    → IsKeyed d
    → lookup k d ≡ some p
    → p.peer_lxmf_hash ≡ k
unfolding lookup
lookup-own k p [] h e = absurd (ground arith)
lookup-own k p ((j, q) ∷ d) h e = ground (arith, lookup-own k p d h.1)

change-IsKeyed :
    (f : SwarmPeerState → SwarmPeerState) (k : String) (d : Dict String SwarmPeerState)
    → ((p : SwarmPeerState) → (f p).peer_lxmf_hash ≡ p.peer_lxmf_hash)
    → IsKeyed d
    → IsKeyed (change f k d)
unfolding change
change-IsKeyed f k d same_hash h = elim (Option-cases (lookup k d)) [
  | inl e ↦ rw (e, change) h
  | inr (p, e) ↦
      rw (e, change)
        (insert-IsKeyed k (f p) d (ground (arith, same_hash p, lookup-own k p d h e)) h)
]

pub known-change :
    (f : SwarmPeerState → SwarmPeerState) (k peer : String) (d : Dict String SwarmPeerState)
    → known peer (change f k d) ≡ known peer d
known-change f k peer d = elim (Option-cases (lookup k d)) [
  | inl e ↦ ground (arith, lookup-change f k peer d)
  | inr (p, e) ↦ ground (arith, lookup-change f k peer d)
]

-- Every peer of a part of the table is found in the table.
pub values-known :
    (d rest : Dict String SwarmPeerState)
    → ((k : String) → known k rest ≡ true → known k d ≡ true)
    → IsKeyed rest
    → All (λ p. known p.peer_lxmf_hash d ≡ true) (values rest)
unfolding lookup
values-known d [] part h = tt
values-known d ((k, p) ∷ rest) part h = (
  part p.peer_lxmf_hash (ground (arith, h.0)),
  values-known d rest (λ j e. part j (ground (arith, e))) h.1,
)

-- A peer of which the counter stays.
pub touched :
    (late : ℕ) (f : SwarmPeerState → SwarmPeerState) (hash : String)
    (requests : Dict String ActiveRequest) (peers : Dict String SwarmPeerState)
    → ((p : SwarmPeerState) → (f p).peer_lxmf_hash ≡ p.peer_lxmf_hash)
    → ((p : SwarmPeerState) → (f p).in_flight ≡ p.in_flight)
    → Counted late requests peers
    → Counted late requests (change f hash peers)
touched late f hash requests peers same_hash kept h = record {
  counted = λ peer. elim (Option-cases (lookup hash peers)) [
    | inl e ↦ ground (arith, h.counted peer, lookup-change f hash peer peers, e)
    | inr (p, e) ↦ ground (arith, h.counted peer, lookup-change f hash peer peers, e, kept p)
  ];
  keyed = change-IsKeyed f hash peers same_hash h.keyed;
}

-- A request leaves, and the counter of its peer goes down.
pub released :
    (late : ℕ) (f : SwarmPeerState → SwarmPeerState) (request_id : String) (r : ActiveRequest)
    (requests : Dict String ActiveRequest) (peers : Dict String SwarmPeerState)
    → ((p : SwarmPeerState) → (f p).peer_lxmf_hash ≡ p.peer_lxmf_hash)
    → ((p : SwarmPeerState) → (f p).in_flight ≡ p.in_flight - 1)
    → lookup request_id requests ≡ some r
    → Counted late requests peers
    → Counted late (erase request_id requests) (change f r.peer_lxmf_hash peers)
released late f request_id r requests peers same_hash less there h = record {
  counted = λ peer.
      let fewer = total-erase-le (asks peer) request_id requests in
      let changed = lookup-change f r.peer_lxmf_hash peer peers in
      elim (Option-cases (lookup r.peer_lxmf_hash peers)) [
        | inl e ↦ ground (arith, h.counted peer, fewer, changed, there, e)
        | inr (p, e) ↦ ground (arith, h.counted peer, fewer, changed, there, e, less p)
      ];
  keyed = change-IsKeyed f r.peer_lxmf_hash peers same_hash h.keyed;
}

-- A counter goes down, whatever request leaves.
pub lost :
    (late : ℕ) (f : SwarmPeerState → SwarmPeerState) (request_id hash : String)
    (requests : Dict String ActiveRequest) (peers : Dict String SwarmPeerState)
    → ((p : SwarmPeerState) → (f p).peer_lxmf_hash ≡ p.peer_lxmf_hash)
    → ((p : SwarmPeerState) → (f p).in_flight ≡ p.in_flight - 1)
    → Counted late requests peers
    → Counted (late + 1) (erase request_id requests) (change f hash peers)
lost late f request_id hash requests peers same_hash less h = record {
  counted = λ peer.
      let fewer = total-erase-le (asks peer) request_id requests in
      let changed = lookup-change f hash peer peers in
      elim (Option-cases (lookup hash peers)) [
        | inl e ↦ ground (arith, h.counted peer, fewer, changed, e)
        | inr (p, e) ↦ ground (arith, h.counted peer, fewer, changed, e, less p)
      ];
  keyed = change-IsKeyed f hash peers same_hash h.keyed;
}

-- A request is filed for a peer that is known, and its counter goes up.
pub entered :
    (late : ℕ) (f : SwarmPeerState → SwarmPeerState) (request_id : String) (r : ActiveRequest)
    (requests : Dict String ActiveRequest) (peers : Dict String SwarmPeerState)
    → ((p : SwarmPeerState) → (f p).peer_lxmf_hash ≡ p.peer_lxmf_hash)
    → ((p : SwarmPeerState) → (f p).in_flight ≡ p.in_flight + 1)
    → known r.peer_lxmf_hash peers ≡ true
    → Counted late requests peers
    → Counted late (insert request_id r requests) (change f r.peer_lxmf_hash peers)
entered late f request_id r requests peers same_hash more there h = record {
  counted = λ peer.
      let filed = total-insert (asks peer) request_id r requests in
      let changed = lookup-change f r.peer_lxmf_hash peer peers in
      elim (Option-cases (lookup r.peer_lxmf_hash peers)) [
        | inl e ↦ absurd (ground (arith, e, there))
        | inr (p, e) ↦ ground (arith, h.counted peer, filed, changed, e, more p)
      ];
  keyed = change-IsKeyed f r.peer_lxmf_hash peers same_hash h.keyed;
}
