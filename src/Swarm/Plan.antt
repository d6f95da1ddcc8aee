-- ===== src/Swarm/Plan.antt =====
-- `plan_requests`. Its `while` loop has the places of a peer as fuel, since each turn takes one. The
-- identifiers (`uuid.uuid4`) and the time a chunk may take (`next_chunk_timeout`) are arguments.
use retiboard.Base.{
  nat_key, text_key, ℕ, zero, suc, ◌+◌, ltb, if◌then◌else◌, Bool, ◌&&◌, String, List, [], ◌∷◌, ◌++◌,
  length, filter_by, Option, none, some, map,
}
use retiboard.Base.Dict.{lookup, insert, values}
use retiboard.Base.Sets.{add}
use retiboard.Base.Sort.{sort_by}
use retiboard.Swarm.State.{
  request_enqueued, SwarmChunkState, RequestPlan, SwarmFetcher, is_available, is_complete,
}
use retiboard.Swarm.Marks.{on_peer, on_chunk, process_timeouts}
use retiboard.Swarm.Select.{select_chunk_for_peer, peer_before}

abbrev pub in_flight_of : SwarmFetcher → String → ℕ
in_flight_of s peer = elim (lookup peer s.peers) [ none ↦ 0 | some p ↦ p.in_flight ]

unfoldable pub enqueued : String → SwarmChunkState → SwarmChunkState
enqueued request_id c = record c {
  attempt_count = c.attempt_count + 1;
  active_request_ids = add request_id c.active_request_ids;
  state = request_enqueued;
}

-- What one turn of the loop enters in the tables.
unfoldable pub enter_request : ℕ → SwarmFetcher → RequestPlan → SwarmFetcher
unfolding on_peer on_chunk enqueued
enter_request now s plan = on_chunk (enqueued plan.request_id) plan.chunk_index (
    on_peer (λ p. record p { in_flight = p.in_flight + 1 }) plan.peer_lxmf_hash
      (record s {
        requests =
            insert plan.request_id
              (record {
                request_id = plan.request_id;
                peer_lxmf_hash = plan.peer_lxmf_hash;
                chunk_index = plan.chunk_index;
                deadline_at = now + plan.timeout_seconds;
                duplicate = plan.duplicate;
              })
              s.requests;
      }))

module _ (next_chunk_timeout : ℕ → ℕ) (uuid : ℕ → String) (now : ℕ) where
  abbrev pub plan_of : String → ℕ → ℕ × Bool → RequestPlan
  plan_of peer n (index, duplicate) = record {
    request_id = uuid n;
    peer_lxmf_hash = peer;
    chunk_index = index;
    timeout_seconds = next_chunk_timeout index;
    duplicate = duplicate;
  }

  -- The condition of the loop, and the choice that ends it where there is none.
  unfoldable pub next_choice : SwarmFetcher → String → Option (ℕ × Bool)
  next_choice s peer =
      if ltb (in_flight_of s peer) s.max_inflight_per_peer
        && ltb (length s.requests) s.max_inflight_total
      then select_chunk_for_peer now s peer
      else none

  -- The `while` loop for one peer. `uuid n` is the identifier of the plan with number `n`.
  unfoldable pub plan_peer :
      ℕ → String → SwarmFetcher → List RequestPlan → SwarmFetcher × List RequestPlan
  unfolding next_choice enter_request
  plan_peer zero peer s plans = (s, plans)
  plan_peer (suc fuel) peer s plans = elim (next_choice s peer) [
    | none ↦ (s, plans)
    | some choice ↦
        let plan = plan_of peer (length plans) choice in
        plan_peer fuel peer (enter_request now s plan) (plans ++ plan ∷ [])
  ]

  unfoldable pub plan_peers :
      List String → SwarmFetcher → List RequestPlan → SwarmFetcher × List RequestPlan
  unfolding plan_peer
  plan_peers [] s plans = (s, plans)
  plan_peers (peer ∷ peers) s plans =
      let (t, more) = plan_peer s.max_inflight_per_peer peer s plans in plan_peers peers t more

  -- The peers that may be asked, in the order in which they are.
  unfoldable pub ready_peers : SwarmFetcher → List String
  ready_peers s =
      map (λ p. p.peer_lxmf_hash)
        (filter_by (λ p. is_available now p && ltb p.in_flight s.max_inflight_per_peer)
          (sort_by peer_before (values s.peers)))

  unfoldable pub plan_requests : SwarmFetcher → SwarmFetcher × List RequestPlan
  unfolding plan_peers ready_peers
  plan_requests s =
      let current = (process_timeouts now s).0 in
      if is_complete current then (current, []) else plan_peers (ready_peers current) current []
