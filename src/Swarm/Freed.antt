-- ===== src/Swarm/Freed.antt =====
-- What the single events leave of the requests of each peer and of its counter.
use retiboard.Base.{
  nat_key, text_key, ℕ, ◌+◌, ◌≡◌, refl, inl, inr, arith, if◌then◌else◌, Option-cases, Bool-cases,
  Bool, same, truthy, String, List, [], ◌∷◌, Option, none, some,
}
use retiboard.Base.Int.{ℤ}
use retiboard.Base.Dict.{Dict, lookup, total}
use retiboard.Swarm.State.{
  ChunkFetchState, PriorityMode, SwarmPeerState, RequestPlan, SwarmFetcher, new_peer, new_peers,
  update_peer_availability, update_all, new_fetcher,
}
use retiboard.Swarm.Marks.{
  on_peer, on_chunk, pop_request, landed, mark_send_failed, mark_request_sent,
  mark_request_deferred, cancel_all, store_chunk, mark_chunk_stored, punished_invalid, mark_invalid,
  mark_cancelled, apply_persisted_peer_state,
}
use retiboard.Swarm.Counted.{IsKeyed, Counted, insert-IsKeyed, touched, released, lost}

abbrev pub Counts : ℕ → SwarmFetcher → Type 0
Counts late s = Counted late s.requests s.peers

-- 1 if the request of a plan whose sending failed is not filed for its peer any more.
abbrev pub lateness : SwarmFetcher → RequestPlan → ℕ
lateness s plan = elim (lookup plan.request_id s.requests) [
  | none ↦ 1
  | some r ↦ if same r.peer_lxmf_hash plan.peer_lxmf_hash then 0 else 1
]

pub mark_send_failed-Counts :
    (late : ℕ) (s : SwarmFetcher) (plan : RequestPlan)
    → Counts late s
    → Counts (late + lateness s plan) (mark_send_failed s plan)
unfolding mark_send_failed on_peer on_chunk pop_request
mark_send_failed-Counts late s plan h =
    let slack =
      lost late landed plan.request_id plan.peer_lxmf_hash s.requests s.peers (λ p. refl)
        (λ p. refl) h in
    elim (Option-cases (lookup plan.request_id s.requests)) [
      | inl e ↦ rw (lateness, e) slack
      | inr (r, e) ↦ elim (Bool-cases (same r.peer_lxmf_hash plan.peer_lxmf_hash)) [
        | inr f ↦ rw (lateness, e, f) slack
        | inl f ↦
            let exact =
              released late landed plan.request_id r s.requests s.peers (λ p. refl) (λ p. refl) e
                h in
            let own : r.peer_lxmf_hash ≡ plan.peer_lxmf_hash = ground arith in
            let whole : late + 0 ≡ late = omega arith in
            rw (lateness, e, f, whole) (rw own at exact)
      ]
    ]

pub mark_request_sent-Counts :
    (late : ℕ) (s : SwarmFetcher) (request_id : String)
    → Counts late s
    → Counts late (mark_request_sent s request_id)
unfolding mark_request_sent on_chunk
mark_request_sent-Counts late s request_id h = elim (Option-cases (lookup request_id s.requests)) [
  | inl e ↦ rw (e, mark_request_sent) h
  | inr (r, e) ↦ rw (e, mark_request_sent) h
]

pub mark_request_deferred-Counts :
    (late : ℕ) (s : SwarmFetcher) (request_id : String) (state : ChunkFetchState)
    → Counts late s
    → Counts late (mark_request_deferred s request_id state)
unfolding mark_request_deferred on_peer on_chunk pop_request
mark_request_deferred-Counts late s request_id state h =
    elim (Option-cases (lookup request_id s.requests)) [
      | inl e ↦ rw (e, mark_request_deferred) h
      | inr (r, e) ↦
          rw (e, mark_request_deferred)
            (released late landed request_id r s.requests s.peers (λ p. refl) (λ p. refl) e h)
    ]

pub mark_invalid-Counts :
    (late now : ℕ) (s : SwarmFetcher) (request_id : String)
    → Counts late s
    → Counts late (mark_invalid now s request_id)
unfolding mark_invalid on_peer on_chunk pop_request punished_invalid
mark_invalid-Counts late now s request_id h = elim (Option-cases (lookup request_id s.requests)) [
  | inl e ↦ rw (e, mark_invalid) h
  | inr (r, e) ↦
      rw (e, mark_invalid)
        (released late (punished_invalid now) request_id r s.requests s.peers (λ p. refl)
          (λ p. refl) e h)
]

pub mark_cancelled-Counts :
    (late : ℕ) (s : SwarmFetcher) (request_id : String)
    → Counts late s
    → Counts late (mark_cancelled s request_id)
unfolding mark_cancelled on_peer on_chunk pop_request
mark_cancelled-Counts late s request_id h = elim (Option-cases (lookup request_id s.requests)) [
  | inl e ↦ rw (e, mark_cancelled) h
  | inr (r, e) ↦
      rw (e, mark_cancelled)
        (released late landed request_id r s.requests s.peers (λ p. refl) (λ p. refl) e h)
]

cancel_all-Counts :
    (late : ℕ) (request_id : String) (ids : List String) (s : SwarmFetcher)
    → Counts late s
    → Counts late (cancel_all request_id ids s).0
unfolding cancel_all on_peer pop_request
cancel_all-Counts late request_id [] s h = h
cancel_all-Counts late request_id (x ∷ ids) s h = elim (Bool-cases (same x request_id)) [
  | inl own ↦ rw (own, cancel_all) (cancel_all-Counts late request_id ids s h)
  | inr other ↦ elim (Option-cases (lookup x s.requests)) [
    | inl e ↦ rw (other, e, cancel_all) (cancel_all-Counts late request_id ids s h)
    | inr (r, e) ↦
        rw (other, e, cancel_all)
          (cancel_all-Counts late request_id ids (on_peer landed r.peer_lxmf_hash (pop_request x s))
            (released late landed x r s.requests s.peers (λ p. refl) (λ p. refl) e h))
  ]
]

pub mark_chunk_stored-Counts :
    (late : ℕ) (s : SwarmFetcher) (request_id : String)
    → Counts late s
    → Counts late (mark_chunk_stored s request_id).0
unfolding mark_chunk_stored store_chunk on_peer pop_request
mark_chunk_stored-Counts late s request_id h = elim (Option-cases (lookup request_id s.requests)) [
  | inl e ↦ rw (e, mark_chunk_stored) h
  | inr (r, e) ↦
      let f : SwarmPeerState → SwarmPeerState =
        λ p. landed (record p { success_count = p.success_count + 1 }) in
      let freed : SwarmFetcher = on_peer f r.peer_lxmf_hash (pop_request request_id s) in
      let fewer : Counts late freed =
        released late f request_id r s.requests s.peers (λ p. refl) (λ p. refl) e h in
      elim (Option-cases (lookup r.chunk_index freed.chunks)) [
        | inl g ↦ rw (e, mark_chunk_stored, g) fewer
        | inr (c, g) ↦
            rw (e, mark_chunk_stored, g)
              (cancel_all-Counts late request_id c.active_request_ids _ fewer)
      ]
]

pub apply_persisted_peer_state-Counts :
    (late : ℕ) (s : SwarmFetcher) (peer : String) (timeouts invalid successes cooldown : ℕ)
    → Counts late s
    → Counts late (apply_persisted_peer_state s peer timeouts invalid successes cooldown)
unfolding apply_persisted_peer_state on_peer
apply_persisted_peer_state-Counts late s peer timeouts invalid successes cooldown h =
    touched late _ peer s.requests s.peers (λ p. refl) (λ p. refl) h

pub update_peer_availability-Counts :
    (late : ℕ) (s : SwarmFetcher) (peer : String) (ranges : List (ℤ × ℤ))
    → Counts late s
    → Counts late (update_peer_availability s peer ranges)
unfolding update_peer_availability
update_peer_availability-Counts late s peer ranges h = h

update_all-Counts :
    (late : ℕ) (ranges : Dict String (List (ℤ × ℤ))) (s : SwarmFetcher)
    → Counts late s
    → Counts late (update_all s ranges)
unfolding update_all
update_all-Counts late [] s h = h
update_all-Counts late ((peer, r) ∷ ranges) s h =
    update_all-Counts late ranges _ (update_peer_availability-Counts late s peer r h)

new_peers-IsKeyed :
    (ps : List String) (peers : Dict String SwarmPeerState)
    → IsKeyed peers
    → IsKeyed (new_peers ps peers)
unfolding new_peers new_peer
new_peers-IsKeyed [] peers h = h
new_peers-IsKeyed (p ∷ ps) peers h = elim (Bool-cases (truthy p)) [
  | inr e ↦ rw (e, new_peers) (new_peers-IsKeyed ps peers h)
  | inl e ↦ rw (e, new_peers) (new_peers-IsKeyed ps _ (insert-IsKeyed p (new_peer p) peers refl h))
]

pub new_fetcher-Counts :
    (peers : List String) (chunk_count : ℕ) (total per_peer : Option ℕ) (attempts : ℕ)
    (mode : PriorityMode) (ranges : Dict String (List (ℤ × ℤ))) (low_bandwidth : Bool)
    → Counts 0 (new_fetcher peers chunk_count total per_peer attempts mode ranges low_bandwidth)
unfolding new_fetcher retiboard.Base.Dict.total
new_fetcher-Counts peers chunk_count total per_peer attempts mode ranges low_bandwidth =
    update_all-Counts 0 ranges _
      (record { counted = λ peer. omega arith; keyed = new_peers-IsKeyed peers [] tt })
