-- ===== src/Tests/Downloads.antt =====
-- A blob of two chunks, and two peers.
use retiboard.Base.{
  nat_key, text_key, text_discrete, ℕ_discrete, codes, ℕ, zero, suc, ◌+◌, ◌≤◌, ◌≡◌, refl, sym, ap,
  ◌∙◌, arith, false, String, [], ◌∷◌, length, some, none, any_by,
}
use retiboard.Base.Dict.{lookup, insert}
use retiboard.Base.Sort.{insert_sorted, sort_by}
use retiboard.Swarm.State.{
  hybrid, new_peer, new_peers, new_chunks, new_chunk, update_all, new_fetcher,
  has_peer_availability, peer_has_chunk, SwarmChunkState, SwarmFetcher,
}
use retiboard.Swarm.Select.{
  select_chunk_for_peer, select_idle, eligible, entries_at, ordered_chunks,
}
use retiboard.Swarm.Plan.{plan_peer, plan_requests, next_choice}
use retiboard.Swarm.Choice.{Chosen, select_chunk_for_peer-Chosen}
use retiboard.Swarm.Freed.{new_fetcher-Counts}
use retiboard.Swarm.Served.{IsServed, requests_of, plan_requests-IsServed}
use retiboard.Swarm.Loop.{plan_peer-ends}
use retiboard.Swarm.Tracking.{holds, filed}
use retiboard.Swarm.Fresh.{IsFresh, IsDistinct}
use retiboard.Swarm.Start.{IsSound, new_fetcher-IsSound}
use retiboard.Swarm.Reach.{init, next, plans, Reach-Agrees}

abbrev fetcher : SwarmFetcher
fetcher = new_fetcher ("p" ∷ "q" ∷ []) 2 none none 6 hybrid [] false

sound : IsSound fetcher
sound = new_fetcher-IsSound ("p" ∷ "q" ∷ []) 2 none none 6 hybrid [] false

-- Identifiers of growing length.
abbrev name : ℕ → String
name zero = ""
name (suc n) = String.◌∷◌ "x" (name n)

length-name : (n : ℕ) → length (codes (name n)) ≡ n
length-name zero = refl
length-name (suc n) = ap suc (length-name n)

name-IsDistinct : IsDistinct name
name-IsDistinct m n e = sym (length-name m) ∙ ap (λ s. length (codes s)) e ∙ length-name n

name-IsFresh : IsFresh name 0 fetcher
unfolding new_fetcher update_all lookup
name-IsFresh m le = refl

abbrev timeout : ℕ → ℕ
timeout i = 30

abbrev planned : SwarmFetcher
planned = (plan_requests timeout name 100 fetcher).0

served : IsServed 0 fetcher
served = record {
  bounded = sound.bounded;
  counts = new_fetcher-Counts ("p" ∷ "q" ∷ []) 2 none none 6 hybrid [] false;
}

plan_requests-IsServed_example :
    IsServed 0 planned × (requests_of planned "p" ≤ planned.max_inflight_per_peer + 0)
plan_requests-IsServed_example = plan_requests-IsServed 0 timeout name 100 fetcher "p" served

Reach-Agrees_example :
    (holds planned 0 "x" ≡ filed planned 0 "x")
    × (length planned.requests ≤ planned.max_inflight_total)
    × (requests_of planned "p" ≤ planned.max_inflight_per_peer + 0)
Reach-Agrees_example = Reach-Agrees 0 "x" "p" (
    next (init ("p" ∷ "q" ∷ []) 2 none none 6 hybrid [] false)
      (plans timeout name 100 name-IsDistinct name-IsFresh))

first_choice : select_chunk_for_peer 100 fetcher "p" ≡ some (0, false)
unfolding new_fetcher new_peers new_peer new_chunks new_chunk update_all lookup insert text_discrete
    ℕ_discrete select_chunk_for_peer select_idle eligible entries_at ordered_chunks insert_sorted
    sort_by has_peer_availability peer_has_chunk any_by
first_choice = refl

select_chunk_for_peer-Chosen_example :
    (c : SwarmChunkState) × (lookup 0 fetcher.chunks ≡ some c) × Chosen 100 fetcher "p" false c
select_chunk_for_peer-Chosen_example =
    select_chunk_for_peer-Chosen 100 fetcher "p" 0 false sound.tracked.indexed first_choice

known : lookup "p" fetcher.peers ≡ some (new_peer "p")
unfolding new_fetcher new_peers new_peer update_all lookup insert text_discrete
known = refl

enough : fetcher.max_inflight_per_peer ≤ (new_peer "p").in_flight + 3
unfolding new_fetcher new_peer update_all
enough = omega arith

plan_peer-ends_example :
    next_choice timeout name 100 (plan_peer timeout name 100 3 "p" fetcher []).0 "p" ≡ none
plan_peer-ends_example =
    plan_peer-ends timeout name 100 3 "p" fetcher [] (new_peer "p") known enough
