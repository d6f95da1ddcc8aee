-- ===== src/Swarm/Ended.antt =====
-- The limits when requests end.
use retiboard.Base.{
  nat_key, text_key, ℕ, ◌+◌, ◌≤◌, inl, inr, if◌then◌else◌, Option-cases, arith, same, String, List,
  [], ◌∷◌, none,
}
use retiboard.Base.Dict.{lookup}
use retiboard.Swarm.State.{SwarmPeerState, SwarmChunkState, SwarmFetcher}
use retiboard.Swarm.Marks.{
  on_peer, on_chunk, pop_request, landed, cancel_all, store_chunk, mark_chunk_stored,
}
use retiboard.Swarm.Bounds.{IsBounded, lighter, popped, rechunked}

cancel_all-IsBounded :
    (request_id : String) (ids : List String) (s : SwarmFetcher)
    → IsBounded s
    → IsBounded (cancel_all request_id ids s).0
unfolding cancel_all
cancel_all-IsBounded request_id [] s h = h
cancel_all-IsBounded request_id (x ∷ ids) s h =
    elim (Option-cases (if same x request_id then none else lookup x s.requests)) [
      | inl e ↦ rw (e, cancel_all) (cancel_all-IsBounded request_id ids s h)
      | inr (r, e) ↦
          rw (e, cancel_all)
            (cancel_all-IsBounded request_id ids _
              (lighter landed r.peer_lxmf_hash _ (λ p. omega arith) (popped x s h)))
    ]

pub mark_chunk_stored-IsBounded :
    (s : SwarmFetcher) (request_id : String)
    → IsBounded s
    → IsBounded (mark_chunk_stored s request_id).0
unfolding mark_chunk_stored store_chunk
mark_chunk_stored-IsBounded s request_id h = elim (Option-cases (lookup request_id s.requests)) [
  | inl e ↦ rw (e, mark_chunk_stored) h
  | inr (r, e) ↦
      let freed : SwarmFetcher =
        on_peer (λ p. landed (record p { success_count = p.success_count + 1 })) r.peer_lxmf_hash
          (pop_request request_id s) in
      let less : IsBounded freed =
        lighter (λ p. landed (record p { success_count = p.success_count + 1 })) r.peer_lxmf_hash _
          (λ p. omega arith) (popped request_id s h) in
      elim (Option-cases (lookup r.chunk_index freed.chunks)) [
        | inl f ↦ rw (e, mark_chunk_stored, f) less
        | inr (c, f) ↦
            rw (e, mark_chunk_stored, f)
              (cancel_all-IsBounded request_id c.active_request_ids _
                (record { total = less.total; each = less.each }))
      ]
]

-- A request leaves its table, its peer is changed, and then its chunk.
pub ended-IsBounded :
    (f : SwarmPeerState → SwarmPeerState) (g : SwarmChunkState → SwarmChunkState) (peer : String)
    (index : ℕ) (request_id : String) (s : SwarmFetcher)
    → ((p : SwarmPeerState) → (f p).in_flight ≤ p.in_flight)
    → IsBounded s
    → IsBounded (on_chunk g index (on_peer f peer (pop_request request_id s)))
ended-IsBounded f g peer index request_id s less h =
    rechunked g index _ (lighter f peer _ less (popped request_id s h))
