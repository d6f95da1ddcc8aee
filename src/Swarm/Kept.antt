-- ===== src/Swarm/Kept.antt =====
-- The single events and the two tables.
use retiboard.Base.{
  nat_key, text_key, ℕ, ◌+◌, ◌-◌, ◌≡◌, refl, inl, inr, if◌then◌else◌, Option-cases, arith, true,
  String, List, [], ◌∷◌, some, none,
}
use retiboard.Base.Dict.{lookup, lookup-insert, lookup-change}
use retiboard.Base.Sets.{contains-add}
use retiboard.Swarm.State.{
  ChunkFetchState, cancelled, requested, SwarmChunkState, RequestPlan, ActiveRequest, SwarmFetcher,
}
use retiboard.Swarm.Marks.{
  on_peer, on_chunk, pop_request, given_up, mark_send_failed, mark_request_sent, without_request,
  mark_request_deferred, mark_invalid, mark_cancelled, time_out, time_out_all, expired_ids,
  process_timeouts,
}
use retiboard.Swarm.Plan.{enqueued, enter_request}
use retiboard.Swarm.Tracking.{filed, IsTracked, change-IsTracked, drop-IsTracked}

-- The tables that matter are the same.
pub same_tables :
    (s u : SwarmFetcher) → u.requests ≡ s.requests → u.chunks ≡ s.chunks → IsTracked s → IsTracked u
same_tables s u er ec t = record {
  agree = λ i rid. ground (arith, er, ec, t.agree i rid);
  indexed = λ i c known. ground (arith, ec, t.indexed i c);
}

own_request :
    (s : SwarmFetcher) (request_id : String) (r : ActiveRequest)
    → lookup request_id s.requests ≡ some r
    → (j : ℕ) → filed s j request_id ≡ true
    → j ≡ r.chunk_index
own_request s request_id r e j h = ground arith

pub mark_send_failed-IsTracked :
    (s : SwarmFetcher) (plan : RequestPlan)
    → ((j : ℕ) → filed s j plan.request_id ≡ true → j ≡ plan.chunk_index)
    → IsTracked s
    → IsTracked (mark_send_failed s plan)
unfolding mark_send_failed on_peer on_chunk pop_request given_up
mark_send_failed-IsTracked s plan own t = same_tables _ _ refl refl (
    drop-IsTracked (given_up plan.request_id) plan.chunk_index plan.request_id s (λ c. refl)
      (λ c. refl) own t)

pub mark_request_sent-IsTracked :
    (s : SwarmFetcher) (request_id : String)
    → IsTracked s
    → IsTracked (mark_request_sent s request_id)
unfolding mark_request_sent on_chunk
mark_request_sent-IsTracked s request_id t = elim (Option-cases (lookup request_id s.requests)) [
  | inl e ↦ rw (e, mark_request_sent) t
  | inr (r, e) ↦
      rw (e, mark_request_sent)
        (change-IsTracked (λ c. if c.is_stored then c else record c { state = requested })
          r.chunk_index s (λ c. ground arith) (λ c. ground arith) t)
]

pub mark_request_deferred-IsTracked :
    (s : SwarmFetcher) (request_id : String) (state : ChunkFetchState)
    → IsTracked s
    → IsTracked (mark_request_deferred s request_id state)
unfolding mark_request_deferred on_peer on_chunk pop_request without_request
mark_request_deferred-IsTracked s request_id state t =
    elim (Option-cases (lookup request_id s.requests)) [
      | inl e ↦ rw (e, mark_request_deferred) t
      | inr (r, e) ↦
          rw (e, mark_request_deferred)
            (same_tables _ _ refl refl (
              drop-IsTracked
                (λ c.
                  without_request state request_id
                    (record c { attempt_count = c.attempt_count - 1 }))
                r.chunk_index request_id s (λ c. refl) (λ c. refl) (own_request s request_id r e)
                t))
    ]

pub mark_invalid-IsTracked :
    (now : ℕ) (s : SwarmFetcher) (request_id : String)
    → IsTracked s
    → IsTracked (mark_invalid now s request_id)
unfolding mark_invalid on_peer on_chunk pop_request given_up
mark_invalid-IsTracked now s request_id t = elim (Option-cases (lookup request_id s.requests)) [
  | inl e ↦ rw (e, mark_invalid) t
  | inr (r, e) ↦
      rw (e, mark_invalid)
        (same_tables _ _ refl refl (
          drop-IsTracked (given_up request_id) r.chunk_index request_id s (λ c. refl) (λ c. refl)
            (own_request s request_id r e) t))
]

pub mark_cancelled-IsTracked :
    (s : SwarmFetcher) (request_id : String) → IsTracked s → IsTracked (mark_cancelled s request_id)
unfolding mark_cancelled on_peer on_chunk pop_request without_request
mark_cancelled-IsTracked s request_id t = elim (Option-cases (lookup request_id s.requests)) [
  | inl e ↦ rw (e, mark_cancelled) t
  | inr (r, e) ↦
      rw (e, mark_cancelled)
        (same_tables _ _ refl refl (
          drop-IsTracked (without_request cancelled request_id) r.chunk_index request_id s
            (λ c. refl) (λ c. refl) (own_request s request_id r e) t))
]

time_out-IsTracked :
    (now : ℕ) (request_id : String) (s : SwarmFetcher)
    → IsTracked s
    → IsTracked (time_out now request_id s)
unfolding time_out on_peer on_chunk pop_request given_up
time_out-IsTracked now request_id s t = elim (Option-cases (lookup request_id s.requests)) [
  | inl e ↦ rw (e, time_out) t
  | inr (r, e) ↦
      rw (e, time_out)
        (same_tables _ _ refl refl (
          drop-IsTracked (given_up request_id) r.chunk_index request_id s (λ c. refl) (λ c. refl)
            (own_request s request_id r e) t))
]

time_out_all-IsTracked :
    (now : ℕ) (ids : List String) (s : SwarmFetcher)
    → IsTracked s
    → IsTracked (time_out_all now ids s)
unfolding time_out_all
time_out_all-IsTracked now [] s t = t
time_out_all-IsTracked now (x ∷ ids) s t =
    time_out_all-IsTracked now ids _ (time_out-IsTracked now x s t)

pub process_timeouts-IsTracked :
    (now : ℕ) (s : SwarmFetcher) → IsTracked s → IsTracked (process_timeouts now s).0
unfolding process_timeouts
process_timeouts-IsTracked now s t =
    time_out_all-IsTracked now (expired_ids now s.requests) _ (same_tables s _ refl refl t)

-- A request under an identifier that is not in use, for a chunk that is there.
pub enter_request-IsTracked :
    (now : ℕ) (s : SwarmFetcher) (plan : RequestPlan) (c : SwarmChunkState)
    → lookup plan.request_id s.requests ≡ none
    → lookup plan.chunk_index s.chunks ≡ some c
    → IsTracked s
    → IsTracked (enter_request now s plan)
unfolding enter_request on_peer on_chunk enqueued
enter_request-IsTracked now s plan c new there t = record {
  agree = λ j x. ground (
    arith,
    t.agree j x,
    t.agree j plan.request_id,
    lookup-insert plan.request_id x
        (record {
          request_id = plan.request_id;
          peer_lxmf_hash = plan.peer_lxmf_hash;
          chunk_index = plan.chunk_index;
          deadline_at = now + plan.timeout_seconds;
          duplicate = plan.duplicate;
        })
        s.requests,
    lookup-change (enqueued plan.request_id) plan.chunk_index j s.chunks,
    contains-add plan.request_id x c.active_request_ids,
  );
  indexed = λ j d known. ground (
    arith,
    t.indexed j d,
    t.indexed plan.chunk_index c there,
    lookup-change (enqueued plan.request_id) plan.chunk_index j s.chunks,
  );
}
