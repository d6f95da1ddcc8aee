-- ===== src/Swarm/Served.antt =====
-- The limit on the requests that are filed for each peer, which the code keeps by a counter.
use retiboard.Base.{
  ◌∙◌, ◌++◌, length, text_key, ℕ, zero, suc, ◌+◌, ◌≤◌, ◌≡◌, refl, inl, inr, Bool-cases,
  Option-cases, arith, Bool, true, String, List, [], ◌∷◌, map, All, filter_by,
}
use retiboard.Base.Dict.{lookup, total, values}
use retiboard.Base.Sort.{sort_by-All}
use retiboard.Swarm.State.{SwarmFetcher, RequestPlan, is_complete}
use retiboard.Swarm.Select.{peer_before}
use retiboard.Swarm.Marks.{
  on_peer, on_chunk, pop_request, punished_timeout, time_out, time_out_all, expired_ids,
  process_timeouts,
}
use retiboard.Swarm.Counted.{
  asks, IsKeyed, known, Counted, known-change, values-known, released, entered,
}
use retiboard.Swarm.Plan.{
  enter_request, plan_of, next_choice, plan_peer, plan_peers, ready_peers, plan_requests,
}
use retiboard.Swarm.Bounds.{
  IsBounded, enter_request-IsBounded, next_choice-Room, time_out-IsBounded,
}

-- How many requests are filed for a peer.
abbrev pub requests_of : SwarmFetcher → String → ℕ
requests_of s peer = total (asks peer) s.requests

-- All requests and the counter of each peer are within their limits, no peer has more requests filed
-- than its counter says and `late` more, and each peer stands under its own hash.
pub record IsServed (late : ℕ) (s : SwarmFetcher) : Type 0 where
  pub bounded : IsBounded s
  pub counts : Counted late s.requests s.peers

filtered {ℓ κ} :
    {A : Type ℓ} (P : A → Type κ) (test : A → Bool) (xs : List A)
    → All P xs
    → All P (filter_by test xs)
unfolding filter_by
filtered P test [] h = tt
filtered P test (x ∷ xs) h = elim (Bool-cases (test x)) [
  | inl e ↦ rw (e, filter_by) (h.0, filtered P test xs h.1)
  | inr e ↦ rw (e, filter_by) (filtered P test xs h.1)
]

mapped {ℓ κ μ} :
    {A : Type ℓ} {B : Type κ} (P : B → Type μ) (f : A → B) (xs : List A)
    → All (λ x. P (f x)) xs
    → All P (map f xs)
mapped P f [] h = tt
mapped P f (x ∷ xs) h = (h.0, mapped P f xs h.1)

weaken {ℓ κ μ} :
    {A : Type ℓ} {P : A → Type κ} {Q : A → Type μ}
    → ((x : A) → P x → Q x)
    → (xs : List A) → All P xs
    → All Q xs
weaken f [] h = tt
weaken f (x ∷ xs) h = (f x h.0, weaken f xs h.1)

time_out-IsServed :
    (late now : ℕ) (request_id : String) (s : SwarmFetcher)
    → IsServed late s
    → IsServed late (time_out now request_id s)
unfolding time_out punished_timeout on_peer on_chunk pop_request
time_out-IsServed late now request_id s h = elim (Option-cases (lookup request_id s.requests)) [
  | inl e ↦ rw (e, time_out) h
  | inr (r, e) ↦ record {
    bounded = time_out-IsBounded now request_id s h.bounded;
    counts =
        rw (e, time_out)
          (released late (punished_timeout now) request_id r s.requests s.peers (λ p. refl)
            (λ p. refl) e h.counts);
  }
]

time_out_all-IsServed :
    (late now : ℕ) (ids : List String) (s : SwarmFetcher)
    → IsServed late s
    → IsServed late (time_out_all now ids s)
unfolding time_out_all
time_out_all-IsServed late now [] s h = h
time_out_all-IsServed late now (request_id ∷ ids) s h =
    time_out_all-IsServed late now ids _ (time_out-IsServed late now request_id s h)

enter_request-IsServed :
    (late now : ℕ) (s : SwarmFetcher) (plan : RequestPlan)
    → known plan.peer_lxmf_hash s.peers ≡ true
    → IsBounded (enter_request now s plan)
    → IsServed late s
    → IsServed late (enter_request now s plan)
unfolding enter_request on_peer on_chunk
enter_request-IsServed late now s plan there bounded h = record {
  bounded = bounded;
  counts =
      entered late (λ p. record p { in_flight = p.in_flight + 1 }) plan.request_id
        (record {
          request_id = plan.request_id;
          peer_lxmf_hash = plan.peer_lxmf_hash;
          chunk_index = plan.chunk_index;
          deadline_at = now + plan.timeout_seconds;
          duplicate = plan.duplicate;
        })
        s.requests s.peers (λ p. refl) (λ p. refl) there h.counts;
}

pub process_timeouts-IsServed :
    (late now : ℕ) (s : SwarmFetcher) → IsServed late s → IsServed late (process_timeouts now s).0
unfolding process_timeouts
process_timeouts-IsServed late now s h =
    time_out_all-IsServed late now (expired_ids now s.requests) _ (record {
      bounded = record { total = h.bounded.total; each = h.bounded.each };
      counts = h.counts;
    })

known-enter_request :
    (now : ℕ) (s : SwarmFetcher) (plan : RequestPlan) (peer : String)
    → known peer (enter_request now s plan).peers ≡ known peer s.peers
unfolding enter_request on_peer on_chunk
known-enter_request now s plan peer =
    known-change (λ p. record p { in_flight = p.in_flight + 1 }) plan.peer_lxmf_hash peer s.peers

module _ (late : ℕ) (next_chunk_timeout : ℕ → ℕ) (uuid : ℕ → String) (now : ℕ) where
  -- The state is in order, and the peers are those of `s`.
  abbrev Served : SwarmFetcher → SwarmFetcher × List RequestPlan → Type 0
  Served s (t, plans) = IsServed late t × ((q : String) → known q t.peers ≡ known q s.peers)

  plan_peer-Served :
      (fuel : ℕ) (peer : String) (s : SwarmFetcher) (plans : List RequestPlan)
      → known peer s.peers ≡ true
      → IsServed late s
      → Served s (plan_peer next_chunk_timeout uuid now fuel peer s plans)
  unfolding plan_peer
  plan_peer-Served zero peer s plans there h = (h, λ q. refl)
  plan_peer-Served (suc fuel) peer s plans there h =
      elim (Option-cases (next_choice next_chunk_timeout uuid now s peer)) [
        | inl e ↦ rw (e, plan_peer) (h, λ q. refl)
        | inr (choice, e) ↦
            let plan = plan_of next_chunk_timeout uuid now peer (length plans) choice in
            let room = next_choice-Room next_chunk_timeout uuid now s peer choice e in
            let bounded = enter_request-IsBounded now s plan room.1 room.0 h.bounded in
            let same_peers = known-enter_request now s plan in
            let (served, still) =
              plan_peer-Served fuel peer (enter_request now s plan) (plans ++ plan ∷ [])
                (same_peers peer ∙ there)
                (enter_request-IsServed late now s plan there bounded h) in
            rw (e, plan_peer) (served, λ q. still q ∙ same_peers q)
      ]

  plan_peers-IsServed :
      (peers : List String) (s : SwarmFetcher) (plans : List RequestPlan)
      → All (λ q. known q s.peers ≡ true) peers
      → IsServed late s
      → IsServed late (plan_peers next_chunk_timeout uuid now peers s plans).0
  unfolding plan_peers
  plan_peers-IsServed [] s plans there h = h
  plan_peers-IsServed (peer ∷ peers) s plans there h =
      let (served, still) = plan_peer-Served s.max_inflight_per_peer peer s plans there.0 h in
      plan_peers-IsServed peers _ _ (weaken (λ q e. still q ∙ e) peers there.1) served

  ready_peers-known :
      (s : SwarmFetcher)
      → IsKeyed s.peers
      → All (λ q. known q s.peers ≡ true) (ready_peers next_chunk_timeout uuid now s)
  unfolding ready_peers
  ready_peers-known s h =
      mapped (λ q. known q s.peers ≡ true) (λ p. p.peer_lxmf_hash) _
        (filtered (λ p. known p.peer_lxmf_hash s.peers ≡ true) _ _
          (sort_by-All peer_before (λ p. known p.peer_lxmf_hash s.peers ≡ true) (values s.peers)
            (values-known s.peers s.peers (λ k e. e) h)))

-- If no peer has more requests filed than its counter says and `late` more, all requests and the
-- counters are within their limits, and each peer stands under its own hash, then this is so after
-- `plan_requests`, whatever identifiers and times it is given; so at most `max_inflight_per_peer`
-- requests and `late` more are filed for any peer then.
pub plan_requests-IsServed :
    (late : ℕ) (next_chunk_timeout : ℕ → ℕ) (uuid : ℕ → String) (now : ℕ) (s : SwarmFetcher)
    (peer : String)
    → IsServed late s
    → IsServed late (plan_requests next_chunk_timeout uuid now s).0
      × (requests_of (plan_requests next_chunk_timeout uuid now s).0 peer
          ≤ (plan_requests next_chunk_timeout uuid now s).0.max_inflight_per_peer + late)
unfolding plan_requests
plan_requests-IsServed late next_chunk_timeout uuid now s peer h =
    let current = process_timeouts-IsServed late now s h in
    let served : IsServed late (plan_requests next_chunk_timeout uuid now s).0 =
      elim (Bool-cases (is_complete (process_timeouts now s).0)) [
        | inl e ↦ rw e current
        | inr e ↦ rw e (
            plan_peers-IsServed late next_chunk_timeout uuid now
              (ready_peers next_chunk_timeout uuid now (process_timeouts now s).0)
              (process_timeouts now s).0 []
              (ready_peers-known late next_chunk_timeout uuid now (process_timeouts now s).0
                current.counts.keyed)
              current)
      ] in
    (served, omega (arith, served.counts.counted peer, served.bounded.each peer))
