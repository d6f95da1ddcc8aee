-- ===== src/Swarm/State.antt =====
-- The data of `SwarmFetcher` and its queries. A peer or a chunk is an entry of its table; a change of
-- the object is a write of the entry.
use retiboard.Base.{
  nat_key, text_key, ℕ, suc, zero, ◌-◌, ◌*◌, ◌/◌, ◌^◌, min, max, ltb, leb, ◌==◌, if◌then◌else◌,
  Bool, true, false, not, ◌&&◌, truthy, String, List, [], ◌∷◌, length, any_by, all_by, sum_by,
  Option, none, some,
}
use retiboard.Base.Int.{ℤ, pos, negsuc}
use retiboard.Base.Time.{seconds}
use retiboard.Base.Dict.{Dict, lookup, insert, values}
use retiboard.Base.Sort.{sort_by}

pub data ChunkFetchState : Type 0 where
  missing scheduled request_enqueued requested received prevalidated stored : ChunkFetchState
  complete finalizing timed_out rejected_invalid cancelled peer_cooldown : ChunkFetchState

pub data PriorityMode : Type 0 where
  linear hybrid rarest_first : PriorityMode

pub record SwarmPeerState : Type 0 where
  pub peer_lxmf_hash : String
  pub timeout_count : ℕ
  pub invalid_chunk_count : ℕ
  pub success_count : ℕ
  pub cooldown_until : ℕ
  pub in_flight : ℕ

abbrev pub is_available : ℕ → SwarmPeerState → Bool
is_available now peer = leb peer.cooldown_until now

pub record SwarmChunkState : Type 0 where
  pub chunk_index : ℕ
  pub state : ChunkFetchState
  pub attempt_count : ℕ
  pub is_stored : Bool
  pub active_request_ids : List String
  pub successful_peer_lxmf_hash : String

pub record RequestPlan : Type 0 where
  pub request_id : String
  pub peer_lxmf_hash : String
  pub chunk_index : ℕ
  pub timeout_seconds : ℕ
  pub duplicate : Bool

pub record ActiveRequest : Type 0 where
  pub request_id : String
  pub peer_lxmf_hash : String
  pub chunk_index : ℕ
  pub deadline_at : ℕ
  pub duplicate : Bool

pub record SwarmFetcher : Type 0 where
  pub priority_mode : PriorityMode
  pub max_inflight_total : ℕ
  pub max_inflight_per_peer : ℕ
  pub max_attempts_per_chunk : ℕ
  pub peers : Dict String SwarmPeerState
  pub chunks : Dict ℕ SwarmChunkState
  pub requests : Dict String ActiveRequest
  pub peer_chunk_ranges : Dict String (List (ℕ × ℕ))
  pub recent_timeouts : List ActiveRequest

unfoldable pub new_peer : String → SwarmPeerState
new_peer peer = record {
  peer_lxmf_hash = peer;
  timeout_count = 0;
  invalid_chunk_count = 0;
  success_count = 0;
  cooldown_until = 0;
  in_flight = 0;
}

unfoldable pub new_chunk : ℕ → SwarmChunkState
new_chunk index = record {
  chunk_index = index;
  state = missing;
  attempt_count = 0;
  is_stored = false;
  active_request_ids = [];
  successful_peer_lxmf_hash = "";
}

-- The peers whose hash is not empty, after those that are there.
unfoldable pub new_peers : List String → Dict String SwarmPeerState → Dict String SwarmPeerState
unfolding new_peer
new_peers [] peers = peers
new_peers (peer ∷ ps) peers =
    new_peers ps (if truthy peer then insert peer (new_peer peer) peers else peers)

-- `count` chunks from `start` on.
unfoldable pub new_chunks : ℕ → ℕ → Dict ℕ SwarmChunkState
unfolding new_chunk
new_chunks start zero = []
new_chunks start (suc count) = (start, new_chunk start) ∷ new_chunks (suc start) count

-- Pairs are ordered by their first component, then by their second.
abbrev pub pair_before : ℕ × ℕ → ℕ × ℕ → Bool
pair_before (a, b) (c, d) = if a == c then ltb b d else ltb a c

abbrev at_least_zero : ℤ → ℕ
at_least_zero (pos n) = n
at_least_zero (negsuc n) = 0

-- `min(count - 1, end)`, none where it is negative.
abbrev last_chunk : ℕ → ℤ → Option ℕ
last_chunk zero end = none
last_chunk (suc n) (pos end) = some (min n end)
last_chunk (suc n) (negsuc end) = none

unfoldable pub normalized : ℕ → List (ℤ × ℤ) → List (ℕ × ℕ)
normalized count [] = []
normalized count ((start, end) ∷ ranges) = elim (last_chunk count end) [
  | none ↦ normalized count ranges
  | some last ↦
      if ltb last (at_least_zero start)
      then normalized count ranges
      else (at_least_zero start, last) ∷ normalized count ranges
]

unfoldable pub update_peer_availability : SwarmFetcher → String → List (ℤ × ℤ) → SwarmFetcher
unfolding normalized
update_peer_availability s peer ranges = record s {
  peer_chunk_ranges =
      insert peer (sort_by pair_before (normalized (length s.chunks) ranges)) s.peer_chunk_ranges;
}

abbrev limit_or : Option ℕ → ℕ → ℕ
limit_or none usual = max 1 usual
limit_or (some limit) usual = max 1 limit

unfoldable pub update_all : SwarmFetcher → Dict String (List (ℤ × ℤ)) → SwarmFetcher
unfolding update_peer_availability
update_all s [] = s
update_all s ((peer, ranges) ∷ rest) = update_all (update_peer_availability s peer ranges) rest

unfoldable pub new_fetcher :
    List String
    → (chunk_count : ℕ) → (total per_peer : Option ℕ) → (attempts : ℕ) → PriorityMode
    → Dict String (List (ℤ × ℤ))
    → (low_bandwidth : Bool) → SwarmFetcher
unfolding new_peers new_chunks update_all
new_fetcher peers chunk_count total per_peer attempts mode ranges low_bandwidth =
    update_all
      (record {
        priority_mode = mode;
        max_inflight_total = limit_or total (if low_bandwidth then 3 else 10);
        max_inflight_per_peer = limit_or per_peer (if low_bandwidth then 1 else 3);
        max_attempts_per_chunk = max 1 attempts;
        peers = new_peers peers [];
        chunks = new_chunks 0 chunk_count;
        requests = [];
        peer_chunk_ranges = [];
        recent_timeouts = [];
      })
      ranges

unfoldable pub has_peer_availability : SwarmFetcher → Bool
has_peer_availability s = any_by (λ r. not (length r == 0)) (values s.peer_chunk_ranges)

-- A peer that has told nothing may have every chunk.
unfoldable pub peer_has_chunk : SwarmFetcher → String → ℕ → Bool
peer_has_chunk s peer index = elim (lookup peer s.peer_chunk_ranges) [
  | none ↦ true
  | some ranges ↦
      if length ranges == 0 then true else any_by (λ r. leb r.0 index && leb index r.1) ranges
]

abbrev one_if : Bool → ℕ
one_if b = if b then 1 else 0

unfoldable pub availability_count : SwarmFetcher → ℕ → ℕ → ℕ
availability_count s index now =
    sum_by (λ p. one_if (is_available now p && peer_has_chunk s p.peer_lxmf_hash index))
      (values s.peers)

unfoldable pub active_peer_count : ℕ → SwarmFetcher → ℕ
active_peer_count now s = sum_by (λ p. one_if (is_available now p)) (values s.peers)

unfoldable pub is_complete : SwarmFetcher → Bool
is_complete s = all_by (λ c. c.is_stored) (values s.chunks)

abbrev pub remaining : SwarmFetcher → ℕ
remaining s = sum_by (λ c. one_if (not c.is_stored)) (values s.chunks)

unfoldable pub is_endgame : ℕ → SwarmFetcher → Bool
unfolding active_peer_count
is_endgame now s = leb (remaining s) (max 2 (active_peer_count now s * 2))

unfoldable pub can_make_progress : SwarmFetcher → Bool
unfolding is_complete
can_make_progress s =
    if is_complete s
    then true
    else if not (length s.requests == 0)
    then true
    else any_by (λ c. not c.is_stored && ltb c.attempt_count s.max_attempts_per_chunk)
        (values s.chunks)

unfoldable pub percent_complete : SwarmFetcher → ℕ
percent_complete s =
    let total = length s.chunks in
    let done = sum_by (λ c. one_if c.is_stored) (values s.chunks) in
    elim total [ zero ↦ 0 | suc n ↦ done * 100 / suc n ]

unfoldable pub timeout_penalty : ℕ → ℕ
timeout_penalty timeout_count = min (seconds 180) (seconds 10 * 2 ^ (timeout_count - 1))

unfoldable pub invalid_penalty : ℕ → ℕ
invalid_penalty invalid_count = min (seconds 600) (seconds 60 * 2 ^ (invalid_count - 1))
