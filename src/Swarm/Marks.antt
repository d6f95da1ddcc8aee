-- ===== src/Swarm/Marks.antt =====
-- What sending, an answer, a failure and the passing of time do to `SwarmFetcher`. All but
-- `mark_chunk_stored` return an empty list always, which is left out.
use retiboard.Base.{
  nat_key, text_key, ℕ, ◌+◌, ◌-◌, max, leb, ◌==◌, if◌then◌else◌, true, not, ◌&&◌, String, same,
  List, [], ◌∷◌, ◌++◌, length, none, some,
}
use retiboard.Base.Dict.{Dict, lookup, change, insert, erase}
use retiboard.Base.Sets.{discard}
use retiboard.Swarm.State.{
  ChunkFetchState, missing, requested, stored, cancelled, SwarmPeerState, SwarmChunkState,
  RequestPlan, ActiveRequest, SwarmFetcher, timeout_penalty, invalid_penalty,
}

-- A change of one peer, or of one chunk, if it is there.
unfoldable pub on_peer : (SwarmPeerState → SwarmPeerState) → String → SwarmFetcher → SwarmFetcher
on_peer f hash s = record s { peers = change f hash s.peers }

unfoldable pub on_chunk : (SwarmChunkState → SwarmChunkState) → ℕ → SwarmFetcher → SwarmFetcher
on_chunk f index s = record s { chunks = change f index s.chunks }

unfoldable pub pop_request : String → SwarmFetcher → SwarmFetcher
pop_request request_id s = record s { requests = erase request_id s.requests }

-- `if peer.in_flight > 0: peer.in_flight -= 1`
abbrev pub landed : SwarmPeerState → SwarmPeerState
landed p = record p { in_flight = p.in_flight - 1 }

-- A chunk that nobody is asked for any more is missing again.
unfoldable pub given_up : String → SwarmChunkState → SwarmChunkState
given_up request_id c =
    let left = discard request_id c.active_request_ids in
    record c {
      active_request_ids = left;
      state = if not c.is_stored && length left == 0 then missing else c.state;
    }

unfoldable pub mark_send_failed : SwarmFetcher → RequestPlan → SwarmFetcher
unfolding on_peer on_chunk pop_request given_up
mark_send_failed s plan =
    on_chunk (given_up plan.request_id) plan.chunk_index
      (on_peer landed plan.peer_lxmf_hash (pop_request plan.request_id s))

unfoldable pub mark_request_sent : SwarmFetcher → String → SwarmFetcher
unfolding on_chunk
mark_request_sent s request_id = elim (lookup request_id s.requests) [
  | none ↦ s
  | some r ↦
      on_chunk (λ c. if c.is_stored then c else record c { state = requested }) r.chunk_index s
]

-- The new state of a chunk that has lost a request: `state` if it was the last.
unfoldable pub without_request : ChunkFetchState → String → SwarmChunkState → SwarmChunkState
without_request state request_id c =
    let left = discard request_id c.active_request_ids in
    record c {
      active_request_ids = left;
      state = if c.is_stored then c.state else if length left == 0 then state else requested;
    }

unfoldable pub mark_request_deferred : SwarmFetcher → String → ChunkFetchState → SwarmFetcher
unfolding on_peer on_chunk pop_request without_request
mark_request_deferred s request_id state = elim (lookup request_id s.requests) [
  | none ↦ s
  | some r ↦
      on_chunk
        (λ c. without_request state request_id (record c { attempt_count = c.attempt_count - 1 }))
        r.chunk_index (on_peer landed r.peer_lxmf_hash (pop_request request_id s))
]

-- The loop over the other requests for a chunk that has come in.
unfoldable pub cancel_all : String → List String → SwarmFetcher → SwarmFetcher × List ActiveRequest
unfolding on_peer pop_request
cancel_all request_id [] s = (s, [])
cancel_all request_id (sibling_id ∷ rest) s =
    elim (if same sibling_id request_id then none else lookup sibling_id s.requests) [
      | none ↦ cancel_all request_id rest s
      | some sibling ↦
          let (t, others) =
            cancel_all request_id rest
              (on_peer landed sibling.peer_lxmf_hash (pop_request sibling_id s)) in
          (t, sibling ∷ others)
    ]

unfoldable pub store_chunk :
    SwarmFetcher → String → ActiveRequest → SwarmChunkState → SwarmFetcher × List ActiveRequest
unfolding cancel_all
store_chunk s request_id r c = cancel_all request_id c.active_request_ids (record s {
  chunks =
      insert r.chunk_index
        (record c {
          is_stored = true;
          successful_peer_lxmf_hash = r.peer_lxmf_hash;
          state = stored;
          active_request_ids = [];
        })
        s.chunks;
})

unfoldable pub mark_chunk_stored : SwarmFetcher → String → SwarmFetcher × List ActiveRequest
unfolding on_peer pop_request store_chunk
mark_chunk_stored s request_id = elim (lookup request_id s.requests) [
  | none ↦ (s, [])
  | some r ↦
      let freed =
        on_peer (λ p. landed (record p { success_count = p.success_count + 1 })) r.peer_lxmf_hash
          (pop_request request_id s) in
      elim (lookup r.chunk_index freed.chunks) [
        | none ↦ (freed, [])
        | some c ↦ store_chunk freed request_id r c
      ]
]

unfoldable pub punished_invalid : ℕ → SwarmPeerState → SwarmPeerState
unfolding invalid_penalty
punished_invalid now p =
    let count = p.invalid_chunk_count + 1 in
    record (landed p) {
      invalid_chunk_count = count;
      cooldown_until = max p.cooldown_until (now + invalid_penalty count);
    }

unfoldable pub mark_invalid : ℕ → SwarmFetcher → String → SwarmFetcher
unfolding on_peer on_chunk pop_request given_up punished_invalid
mark_invalid now s request_id = elim (lookup request_id s.requests) [
  | none ↦ s
  | some r ↦
      on_chunk (given_up request_id) r.chunk_index
        (on_peer (punished_invalid now) r.peer_lxmf_hash (pop_request request_id s))
]

unfoldable pub mark_cancelled : SwarmFetcher → String → SwarmFetcher
unfolding on_peer on_chunk pop_request without_request
mark_cancelled s request_id = elim (lookup request_id s.requests) [
  | none ↦ s
  | some r ↦
      on_chunk (without_request cancelled request_id) r.chunk_index
        (on_peer landed r.peer_lxmf_hash (pop_request request_id s))
]

unfoldable pub punished_timeout : ℕ → SwarmPeerState → SwarmPeerState
unfolding timeout_penalty
punished_timeout now p =
    let count = p.timeout_count + 1 in
    record (landed p) {
      timeout_count = count;
      cooldown_until = max p.cooldown_until (now + timeout_penalty count);
    }

-- The body of the loop of `process_timeouts`.
unfoldable pub time_out : ℕ → String → SwarmFetcher → SwarmFetcher
unfolding on_peer on_chunk pop_request given_up punished_timeout
time_out now request_id s = elim (lookup request_id s.requests) [
  | none ↦ s
  | some r ↦
      let popped = pop_request request_id s in
      on_chunk (given_up request_id) r.chunk_index (
        on_peer (punished_timeout now) r.peer_lxmf_hash
          (record popped { recent_timeouts = popped.recent_timeouts ++ r ∷ [] }))
]

unfoldable pub time_out_all : ℕ → List String → SwarmFetcher → SwarmFetcher
unfolding time_out
time_out_all now [] s = s
time_out_all now (request_id ∷ rest) s = time_out_all now rest (time_out now request_id s)

unfoldable pub expired_ids : ℕ → Dict String ActiveRequest → List String
expired_ids now [] = []
expired_ids now ((request_id, r) ∷ requests) =
    if leb r.deadline_at now
    then request_id ∷ expired_ids now requests
    else expired_ids now requests

unfoldable pub process_timeouts : ℕ → SwarmFetcher → SwarmFetcher × ℕ
unfolding time_out_all expired_ids
process_timeouts now s =
    let expired = expired_ids now s.requests in
    (time_out_all now expired (record s { recent_timeouts = [] }), length expired)

unfoldable pub take_recent_timeouts : SwarmFetcher → SwarmFetcher × List ActiveRequest
take_recent_timeouts s = (record s { recent_timeouts = [] }, s.recent_timeouts)

unfoldable pub apply_persisted_peer_state :
    SwarmFetcher → String → (timeouts invalid successes cooldown : ℕ) → SwarmFetcher
unfolding on_peer
apply_persisted_peer_state s peer timeouts invalid successes cooldown =
    on_peer
      (λ p. record p {
        timeout_count = max p.timeout_count timeouts;
        invalid_chunk_count = max p.invalid_chunk_count invalid;
        success_count = max p.success_count successes;
        cooldown_until = max p.cooldown_until cooldown;
      })
      peer s
