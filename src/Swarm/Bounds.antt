-- ===== src/Swarm/Bounds.antt =====
-- The limits on all requests, and on the counter of each peer.
use retiboard.Base.{
  nat_key, text_key, ℕ, zero, suc, ◌+◌, ◌≤◌, ◌<◌, ◌≡◌, inl, inr, ltb, Bool-cases, Option-cases,
  arith, Bool, ◌&&◌, String, List, [], ◌∷◌, length, some,
}
use retiboard.Base.Dict.{lookup, lookup-change, length-erase-le, length-insert-le}
use retiboard.Swarm.State.{SwarmPeerState, SwarmChunkState, RequestPlan, SwarmFetcher, is_complete}
use retiboard.Swarm.Marks.{
  on_peer, on_chunk, pop_request, given_up, punished_timeout, time_out, time_out_all, expired_ids,
  process_timeouts,
}
use retiboard.Swarm.Plan.{
  in_flight_of, enter_request, plan_of, next_choice, plan_peer, plan_peers, ready_peers,
  plan_requests,
}

pub record IsBounded (s : SwarmFetcher) : Type 0 where
  pub total : length s.requests ≤ s.max_inflight_total
  pub each : (peer : String) → in_flight_of s peer ≤ s.max_inflight_per_peer

-- A peer that is changed so that it has no more requests than before.
pub lighter :
    (f : SwarmPeerState → SwarmPeerState) (hash : String) (s : SwarmFetcher)
    → ((p : SwarmPeerState) → (f p).in_flight ≤ p.in_flight)
    → IsBounded s
    → IsBounded (on_peer f hash s)
unfolding on_peer
lighter f hash s less h = record {
  total = h.total;
  each = λ peer. elim (Option-cases (lookup hash s.peers)) [
    | inl e ↦ ground (arith, h.each peer, lookup-change f hash peer s.peers)
    | inr (p, e) ↦ ground (arith, h.each peer, less p, lookup-change f hash peer s.peers)
  ];
}

pub popped :
    (request_id : String) (s : SwarmFetcher) → IsBounded s → IsBounded (pop_request request_id s)
unfolding pop_request
popped request_id s h = record {
  total = omega (arith, h.total, length-erase-le request_id s.requests);
  each = h.each;
}

pub rechunked :
    (f : SwarmChunkState → SwarmChunkState) (index : ℕ) (s : SwarmFetcher)
    → IsBounded s
    → IsBounded (on_chunk f index s)
unfolding on_chunk
rechunked f index s h = record { total = h.total; each = h.each }

pub enter_request-IsBounded :
    (now : ℕ) (s : SwarmFetcher) (plan : RequestPlan)
    → length s.requests < s.max_inflight_total
    → in_flight_of s plan.peer_lxmf_hash < s.max_inflight_per_peer
    → IsBounded s
    → IsBounded (enter_request now s plan)
unfolding enter_request on_peer on_chunk
enter_request-IsBounded now s plan room own h = record {
  total = omega (
    arith,
    room,
    length-insert-le plan.request_id
        (record {
          request_id = plan.request_id;
          peer_lxmf_hash = plan.peer_lxmf_hash;
          chunk_index = plan.chunk_index;
          deadline_at = now + plan.timeout_seconds;
          duplicate = plan.duplicate;
        })
        s.requests,
  );
  each = λ peer. ground (
    arith,
    h.each peer,
    own,
    lookup-change (λ p. record p { in_flight = p.in_flight + 1 }) plan.peer_lxmf_hash peer s.peers,
  );
}

module _ (next_chunk_timeout : ℕ → ℕ) (uuid : ℕ → String) (now : ℕ) where
  pub next_choice-Room :
      (s : SwarmFetcher) (peer : String) (choice : ℕ × Bool)
      → next_choice next_chunk_timeout uuid now s peer ≡ some choice
      → (in_flight_of s peer < s.max_inflight_per_peer) × (length s.requests < s.max_inflight_total)
  unfolding next_choice
  next_choice-Room s peer choice h =
      elim (Bool-cases (
        ltb (in_flight_of s peer) s.max_inflight_per_peer
        && ltb (length s.requests) s.max_inflight_total)) [
          | inl e ↦ (ground arith, ground arith)
          | inr e ↦ absurd (ground (arith, rw e at h))
        ]

  plan_peer-IsBounded :
      (fuel : ℕ) (peer : String) (s : SwarmFetcher) (plans : List RequestPlan)
      → IsBounded s
      → IsBounded (plan_peer next_chunk_timeout uuid now fuel peer s plans).0
  unfolding plan_peer
  plan_peer-IsBounded zero peer s plans h = h
  plan_peer-IsBounded (suc fuel) peer s plans h =
      elim (Option-cases (next_choice next_chunk_timeout uuid now s peer)) [
        | inl e ↦ rw (e, plan_peer) h
        | inr (choice, e) ↦
            let room = next_choice-Room s peer choice e in
            rw (e, plan_peer)
              (plan_peer-IsBounded fuel peer _ _ (
                enter_request-IsBounded now s
                  (plan_of next_chunk_timeout uuid now peer (length plans) choice) room.1 room.0 h))
      ]

  plan_peers-IsBounded :
      (peers : List String) (s : SwarmFetcher) (plans : List RequestPlan)
      → IsBounded s
      → IsBounded (plan_peers next_chunk_timeout uuid now peers s plans).0
  unfolding plan_peers
  plan_peers-IsBounded [] s plans h = h
  plan_peers-IsBounded (peer ∷ peers) s plans h =
      plan_peers-IsBounded peers _ _ (plan_peer-IsBounded s.max_inflight_per_peer peer s plans h)

pub time_out-IsBounded :
    (now : ℕ) (request_id : String) (s : SwarmFetcher)
    → IsBounded s
    → IsBounded (time_out now request_id s)
unfolding time_out punished_timeout
time_out-IsBounded now request_id s h = elim (Option-cases (lookup request_id s.requests)) [
  | inl e ↦ rw (e, time_out) h
  | inr (r, e) ↦
      rw (e, time_out)
        (rechunked (given_up request_id) r.chunk_index _ (
          lighter (punished_timeout now) r.peer_lxmf_hash _ (λ p. omega arith)
            (record {
              total = omega (arith, (popped request_id s h).total, popped request_id s h);
              each = h.each;
            })))
]

time_out_all-IsBounded :
    (now : ℕ) (ids : List String) (s : SwarmFetcher)
    → IsBounded s
    → IsBounded (time_out_all now ids s)
unfolding time_out_all
time_out_all-IsBounded now [] s h = h
time_out_all-IsBounded now (request_id ∷ ids) s h =
    time_out_all-IsBounded now ids _ (time_out-IsBounded now request_id s h)

pub process_timeouts-IsBounded :
    (now : ℕ) (s : SwarmFetcher) → IsBounded s → IsBounded (process_timeouts now s).0
unfolding process_timeouts
process_timeouts-IsBounded now s h =
    time_out_all-IsBounded now (expired_ids now s.requests) _
      (record { total = h.total; each = h.each })

pub plan_requests-IsBounded :
    (next_chunk_timeout : ℕ → ℕ) (uuid : ℕ → String) (now : ℕ) (s : SwarmFetcher)
    → IsBounded s
    → IsBounded (plan_requests next_chunk_timeout uuid now s).0
unfolding plan_requests
plan_requests-IsBounded next_chunk_timeout uuid now s h =
    let current = process_timeouts-IsBounded now s h in
    elim (Bool-cases (is_complete (process_timeouts now s).0)) [
      | inl e ↦ rw e current
      | inr e ↦ rw e (
          plan_peers-IsBounded next_chunk_timeout uuid now
            (ready_peers next_chunk_timeout uuid now (process_timeouts now s).0)
            (process_timeouts now s).0 [] current)
    ]
