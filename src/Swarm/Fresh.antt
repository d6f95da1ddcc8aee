-- ===== src/Swarm/Fresh.antt =====
-- `plan_requests` and the two tables: the identifiers that it draws.
use retiboard.Base.{
  nat_key, text_key, ℕ, zero, suc, ◌+◌, ◌≤◌, ◌≡◌, refl, inl, inr, ltb, Bool-cases, Option-cases,
  arith, Bool, ◌&&◌, String, List, [], ◌∷◌, ◌++◌, length, length-append, some, none,
}
use retiboard.Base.Dict.{lookup, lookup-insert, lookup-erase}
use retiboard.Swarm.State.{SwarmChunkState, RequestPlan, SwarmFetcher, is_complete}
use retiboard.Swarm.Marks.{
  on_peer, on_chunk, pop_request, time_out, time_out_all, expired_ids, process_timeouts,
}
use retiboard.Swarm.Plan.{
  in_flight_of, enter_request, plan_of, next_choice, plan_peer, plan_peers, ready_peers,
  plan_requests,
}
use retiboard.Swarm.Choice.{select_chunk_for_peer-Chosen}
use retiboard.Swarm.Tracking.{IsTracked}
use retiboard.Swarm.Kept.{process_timeouts-IsTracked, enter_request-IsTracked}

time_out-none :
    (now : ℕ) (x rid : String) (s : SwarmFetcher)
    → lookup rid s.requests ≡ none
    → lookup rid (time_out now x s).requests ≡ none
unfolding time_out on_peer on_chunk pop_request
time_out-none now x rid s h = elim (Option-cases (lookup x s.requests)) [
  | inl e ↦ rw (e, time_out) h
  | inr (r, e) ↦ rw (e, time_out) (ground (arith, lookup-erase x rid s.requests))
]

time_out_all-none :
    (now : ℕ) (ids : List String) (rid : String) (s : SwarmFetcher)
    → lookup rid s.requests ≡ none
    → lookup rid (time_out_all now ids s).requests ≡ none
unfolding time_out_all
time_out_all-none now [] rid s h = h
time_out_all-none now (x ∷ ids) rid s h =
    time_out_all-none now ids rid _ (time_out-none now x rid s h)

-- No identifier from the number `n` on is in use.
abbrev pub IsFresh : (ℕ → String) → ℕ → SwarmFetcher → Type 0
IsFresh uuid n s = (m : ℕ) → n ≤ m → lookup (uuid m) s.requests ≡ none

abbrev pub IsDistinct : (ℕ → String) → Type 0
IsDistinct uuid = (m n : ℕ) → uuid m ≡ uuid n → m ≡ n

enter_request-IsFresh :
    (uuid : ℕ → String) (now n : ℕ) (s : SwarmFetcher) (plan : RequestPlan)
    → IsDistinct uuid
    → plan.request_id ≡ uuid n
    → IsFresh uuid n s
    → IsFresh uuid (suc n) (enter_request now s plan)
unfolding enter_request on_peer on_chunk
enter_request-IsFresh uuid now n s plan distinct named fresh m le = ground (
  arith,
  distinct m n,
  fresh m,
  lookup-insert plan.request_id (uuid m)
      (record {
        request_id = plan.request_id;
        peer_lxmf_hash = plan.peer_lxmf_hash;
        chunk_index = plan.chunk_index;
        deadline_at = now + plan.timeout_seconds;
        duplicate = plan.duplicate;
      })
      s.requests,
)

module _ (next_chunk_timeout : ℕ → ℕ) (uuid : ℕ → String) (now : ℕ)
    (distinct : IsDistinct uuid) where
  next_choice-there :
      (s : SwarmFetcher) (peer : String) (i : ℕ) (duplicate : Bool)
      → IsTracked s
      → next_choice next_chunk_timeout uuid now s peer ≡ some (i, duplicate)
      → (c : SwarmChunkState) × (lookup i s.chunks ≡ some c)
  unfolding next_choice
  next_choice-there s peer i duplicate t h =
      elim (Bool-cases (
        ltb (in_flight_of s peer) s.max_inflight_per_peer
        && ltb (length s.requests) s.max_inflight_total)) [
          | inl e ↦
              let (c, there, more) =
                select_chunk_for_peer-Chosen now s peer i duplicate t.indexed (rw e at h) in
              (c, there)
          | inr e ↦ absurd (ground (arith, rw e at h))
        ]

  abbrev Planned : SwarmFetcher × List RequestPlan → Type 0
  Planned (s, plans) = IsTracked s × IsFresh uuid (length plans) s

  plan_peer-Planned :
      (fuel : ℕ) (peer : String) (s : SwarmFetcher) (plans : List RequestPlan)
      → IsTracked s
      → IsFresh uuid (length plans) s
      → Planned (plan_peer next_chunk_timeout uuid now fuel peer s plans)
  unfolding plan_peer
  plan_peer-Planned zero peer s plans t fresh = (t, fresh)
  plan_peer-Planned (suc fuel) peer s plans t fresh =
      elim (Option-cases (next_choice next_chunk_timeout uuid now s peer)) [
        | inl e ↦ rw (e, plan_peer) (t, fresh)
        | inr ((i, duplicate), e) ↦
            let plan = plan_of next_chunk_timeout uuid now peer (length plans) (i, duplicate) in
            let (c, there) = next_choice-there s peer i duplicate t e in
            rw (e, plan_peer)
              (plan_peer-Planned fuel peer (enter_request now s plan) (plans ++ plan ∷ [])
                (enter_request-IsTracked now s plan c (fresh (length plans) (omega arith)) there t)
                (rw (length-append plans (plan ∷ [])) (λ m le.
                  enter_request-IsFresh uuid now (length plans) s plan distinct refl fresh m
                    (omega (arith, le)))))
      ]

  plan_peers-Planned :
      (peers : List String) (s : SwarmFetcher) (plans : List RequestPlan)
      → IsTracked s
      → IsFresh uuid (length plans) s
      → Planned (plan_peers next_chunk_timeout uuid now peers s plans)
  unfolding plan_peers
  plan_peers-Planned [] s plans t fresh = (t, fresh)
  plan_peers-Planned (peer ∷ peers) s plans t fresh =
      let (tracked, still) = plan_peer-Planned s.max_inflight_per_peer peer s plans t fresh in
      plan_peers-Planned peers _ _ tracked still

  pub plan_requests-IsTracked :
      (s : SwarmFetcher)
      → IsFresh uuid 0 s
      → IsTracked s
      → IsTracked (plan_requests next_chunk_timeout uuid now s).0
  unfolding plan_requests process_timeouts
  plan_requests-IsTracked s fresh t =
      let current = process_timeouts-IsTracked now s t in
      elim (Bool-cases (is_complete (process_timeouts now s).0)) [
        | inl e ↦ rw e current
        | inr e ↦
            rw e
              (plan_peers-Planned
                (ready_peers next_chunk_timeout uuid now (process_timeouts now s).0)
                (process_timeouts now s).0 [] current
                (λ m le.
                  time_out_all-none now (expired_ids now s.requests) (uuid m) _ (fresh m le))).0
      ]
