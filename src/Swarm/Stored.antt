-- ===== src/Swarm/Stored.antt =====
-- `mark_chunk_stored` and the two tables.
use retiboard.Base.{
  nat_key, text_key, ◌≡◌, refl, inl, inr, Option-cases, arith, true, String, [], some,
}
use retiboard.Base.Dict.{lookup, insert, erase, lookup-insert, lookup-erase}
use retiboard.Base.Sets.{contains}
use retiboard.Swarm.State.{stored, SwarmChunkState, ActiveRequest, SwarmFetcher}
use retiboard.Swarm.Marks.{on_peer, pop_request, store_chunk, mark_chunk_stored}
use retiboard.Swarm.Tracking.{IsTracked, lookup-cancel_all, cancel_all-chunks}

abbrev kept : ActiveRequest → SwarmChunkState → SwarmChunkState
kept r c = record c {
  is_stored = true;
  successful_peer_lxmf_hash = r.peer_lxmf_hash;
  state = stored;
  active_request_ids = [];
}

-- `freed` is the state `s` with the request taken from its table, and the peers changed.
store_chunk-IsTracked :
    (s freed : SwarmFetcher) (request_id : String) (r : ActiveRequest) (c : SwarmChunkState)
    → freed.requests ≡ erase request_id s.requests
    → freed.chunks ≡ s.chunks
    → lookup request_id s.requests ≡ some r
    → lookup r.chunk_index s.chunks ≡ some c
    → IsTracked s
    → IsTracked (store_chunk freed request_id r c).0
unfolding store_chunk contains
store_chunk-IsTracked s freed request_id r c es cs known there t =
    let next : SwarmFetcher = record freed {
      chunks = insert r.chunk_index (kept r c) freed.chunks;
    } in
    record {
      agree = λ j x. ground (
        arith,
        es,
        cs,
        t.agree j x,
        t.agree r.chunk_index x,
        lookup-cancel_all request_id c.active_request_ids next x,
        cancel_all-chunks request_id c.active_request_ids next,
        lookup-erase request_id x s.requests,
        lookup-insert r.chunk_index j (kept r c) s.chunks,
      );
      indexed = λ j d at_j. ground (
        arith,
        cs,
        t.indexed j d,
        t.indexed r.chunk_index c there,
        cancel_all-chunks request_id c.active_request_ids next,
        lookup-insert r.chunk_index j (kept r c) s.chunks,
      );
    }

pub mark_chunk_stored-IsTracked :
    (s : SwarmFetcher) (request_id : String)
    → IsTracked s
    → IsTracked (mark_chunk_stored s request_id).0
unfolding mark_chunk_stored on_peer pop_request
mark_chunk_stored-IsTracked s request_id t = elim (Option-cases (lookup request_id s.requests)) [
  | inl e ↦ rw (e, mark_chunk_stored) t
  | inr (r, e) ↦ elim (Option-cases (lookup r.chunk_index s.chunks)) [
    | inl f ↦ absurd (ground (arith, t.agree r.chunk_index request_id))
    | inr (c, f) ↦
        rw (e, mark_chunk_stored, f) (store_chunk-IsTracked s _ request_id r c refl refl e f t)
  ]
]
