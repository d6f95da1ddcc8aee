-- ===== src/Swarm/Loop.antt =====
-- The end of the `while` loop of `plan_requests`.
use retiboard.Base.{
  nat_key, text_key, ℕ, zero, suc, ◌+◌, ◌≤◌, ◌≡◌, inl, inr, Option-cases, arith, String, List,
  length, some, none,
}
use retiboard.Base.Dict.{lookup, lookup-change}
use retiboard.Swarm.State.{SwarmPeerState, RequestPlan, SwarmFetcher}
use retiboard.Swarm.Marks.{on_peer, on_chunk}
use retiboard.Swarm.Plan.{in_flight_of, enter_request, plan_of, next_choice, plan_peer}

enter_request-in_flight :
    (now : ℕ) (s : SwarmFetcher) (plan : RequestPlan) (p : SwarmPeerState)
    → lookup plan.peer_lxmf_hash s.peers ≡ some p
    → lookup plan.peer_lxmf_hash (enter_request now s plan).peers
      ≡ some (record p { in_flight = p.in_flight + 1 })
unfolding enter_request on_peer on_chunk
enter_request-in_flight now s plan p known = ground (
  arith,
  lookup-change (λ q. record q { in_flight = q.in_flight + 1 }) plan.peer_lxmf_hash
      plan.peer_lxmf_hash s.peers,
)

full_ends :
    (next_chunk_timeout : ℕ → ℕ) (uuid : ℕ → String) (now : ℕ) (s : SwarmFetcher) (peer : String)
    → s.max_inflight_per_peer ≤ in_flight_of s peer
    → next_choice next_chunk_timeout uuid now s peer ≡ none
unfolding next_choice
full_ends next_chunk_timeout uuid now s peer full = ground arith

-- With as much fuel as the peer has free places, the loop for a known peer stops where the code's
-- does: there is no place left, or nothing to ask for.
pub plan_peer-ends :
    (next_chunk_timeout : ℕ → ℕ) (uuid : ℕ → String) (now fuel : ℕ) (peer : String)
    (s : SwarmFetcher) (plans : List RequestPlan) (p : SwarmPeerState)
    → lookup peer s.peers ≡ some p
    → s.max_inflight_per_peer ≤ p.in_flight + fuel
    → next_choice next_chunk_timeout uuid now
        (plan_peer next_chunk_timeout uuid now fuel peer s plans).0
        peer
      ≡ none
unfolding plan_peer
plan_peer-ends timeout uuid now zero peer s plans p known enough =
    full_ends timeout uuid now s peer (ground arith)
plan_peer-ends timeout uuid now (suc fuel) peer s plans p known enough =
    elim (Option-cases (next_choice timeout uuid now s peer)) [
      | inl e ↦ rw (e, plan_peer) e
      | inr (choice, e) ↦
          rw (e, plan_peer)
            (plan_peer-ends timeout uuid now fuel peer _ _
              (record p { in_flight = p.in_flight + 1 })
              (enter_request-in_flight now s (plan_of timeout uuid now peer (length plans) choice) p
                known)
              (omega (arith, enough)))
    ]
