-- ===== src/Swarm/Select.antt =====
-- The chunk that a peer is asked for next, and the order in which peers are asked.
use retiboard.Base.{
  nat_key, text_key, ℕ, ◌+◌, ltb, ◌==◌, if◌then◌else◌, Bool, true, false, not, ◌&&◌, String, same,
  text_before, List, [], ◌∷◌, length, Option, none, some,
}
use retiboard.Base.Dict.{Dict, lookup, keys}
use retiboard.Base.Sort.{sort_by}
use retiboard.Swarm.State.{
  PriorityMode, linear, hybrid, rarest_first, SwarmPeerState, SwarmChunkState, SwarmFetcher,
  has_peer_availability, peer_has_chunk, availability_count, is_endgame,
}

abbrev is_rarest_first : PriorityMode → Bool
is_rarest_first linear = false
is_rarest_first hybrid = false
is_rarest_first rarest_first = true

abbrev rarer : ℕ → SwarmFetcher → ℕ → ℕ → Bool
rarer now s i j =
    let a = availability_count s i now in
    let b = availability_count s j now in if a == b then ltb i j else ltb a b

-- The entries of the indexes, in their order.
unfoldable pub entries_at : Dict ℕ SwarmChunkState → List ℕ → List SwarmChunkState
entries_at chunks [] = []
entries_at chunks (i ∷ is) = elim (lookup i chunks) [
  | none ↦ entries_at chunks is
  | some c ↦ c ∷ entries_at chunks is
]

unfoldable pub ordered_chunks : ℕ → SwarmFetcher → List SwarmChunkState
unfolding entries_at
ordered_chunks now s = entries_at s.chunks (
    sort_by
      (if is_rarest_first s.priority_mode && has_peer_availability s then rarer now s else ltb)
      (keys s.chunks))

-- What both loops of `_select_chunk_for_peer` skip.
unfoldable pub eligible : SwarmFetcher → String → SwarmChunkState → Bool
eligible s peer c =
    not c.is_stored
    && ltb c.attempt_count s.max_attempts_per_chunk
    && peer_has_chunk s peer c.chunk_index

-- The first loop: a chunk that no peer is asked for.
unfoldable pub select_idle : SwarmFetcher → String → List SwarmChunkState → Option ℕ
unfolding eligible
select_idle s peer [] = none
select_idle s peer (c ∷ cs) =
    if eligible s peer c && length c.active_request_ids == 0
    then some c.chunk_index
    else select_idle s peer cs

-- Whether the one request for a chunk is with a peer other than this one.
unfoldable pub with_other : SwarmFetcher → String → List String → Bool
with_other s peer [] = false
with_other s peer (request_id ∷ []) = elim (lookup request_id s.requests) [
  | none ↦ false
  | some r ↦ not (same r.peer_lxmf_hash peer)
]
with_other s peer (request_id ∷ other ∷ ids) = false

-- The second loop: a chunk that one other peer is asked for.
unfoldable pub select_duplicate : SwarmFetcher → String → List SwarmChunkState → Option ℕ
unfolding eligible with_other
select_duplicate s peer [] = none
select_duplicate s peer (c ∷ cs) =
    if eligible s peer c && with_other s peer c.active_request_ids
    then some c.chunk_index
    else select_duplicate s peer cs

-- With the second component, whether the request is a duplicate.
unfoldable pub select_chunk_for_peer : ℕ → SwarmFetcher → String → Option (ℕ × Bool)
unfolding ordered_chunks select_idle select_duplicate
select_chunk_for_peer now s peer = elim (select_idle s peer (ordered_chunks now s)) [
  | some index ↦ some (index, false)
  | none ↦
      if is_endgame now s
      then elim (select_duplicate s peer (ordered_chunks now s)) [
        | some index ↦ some (index, true)
        | none ↦ none
      ]
      else none
]

-- `_peer_order_key`: the order by successes, most first, then failures, requests and hash.
unfoldable pub peer_before : SwarmPeerState → SwarmPeerState → Bool
peer_before p q =
    let a = p.timeout_count + p.invalid_chunk_count in
    let b = q.timeout_count + q.invalid_chunk_count in
    if p.success_count == q.success_count
    then if a == b
      then if p.in_flight == q.in_flight
        then text_before p.peer_lxmf_hash q.peer_lxmf_hash
        else ltb p.in_flight q.in_flight
      else ltb a b
    else ltb q.success_count p.success_count
