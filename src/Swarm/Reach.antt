-- ===== src/Swarm/Reach.antt =====
-- Sequences of calls of `SwarmFetcher`.
use retiboard.Base.{
  nat_key, text_key, ℕ, ◌+◌, ◌-◌, ◌≤◌, ◌≡◌, refl, inl, inr, if◌then◌else◌, Option-cases, arith,
  Bool, true, String, List, length, Option,
}
use retiboard.Base.Int.{ℤ}
use retiboard.Base.Dict.{Dict, lookup}
use retiboard.Swarm.State.{
  ChunkFetchState, cancelled, requested, PriorityMode, RequestPlan, SwarmFetcher,
  update_peer_availability, new_fetcher,
}
use retiboard.Swarm.Marks.{
  on_peer, landed, given_up, mark_send_failed, mark_request_sent, without_request,
  mark_request_deferred, mark_chunk_stored, punished_invalid, mark_invalid, mark_cancelled,
  process_timeouts, take_recent_timeouts, apply_persisted_peer_state,
}
use retiboard.Swarm.Plan.{plan_requests}
use retiboard.Swarm.Bounds.{
  IsBounded, lighter, rechunked, process_timeouts-IsBounded, plan_requests-IsBounded,
}
use retiboard.Swarm.Freed.{
  Counts, lateness, mark_send_failed-Counts, mark_request_sent-Counts, mark_request_deferred-Counts,
  mark_invalid-Counts, mark_cancelled-Counts, mark_chunk_stored-Counts,
  apply_persisted_peer_state-Counts, update_peer_availability-Counts, new_fetcher-Counts,
}
use retiboard.Swarm.Served.{requests_of, process_timeouts-IsServed, plan_requests-IsServed}
use retiboard.Swarm.Tracking.{holds, filed, IsTracked}
use retiboard.Swarm.Stored.{mark_chunk_stored-IsTracked}
use retiboard.Swarm.Kept.{
  same_tables, mark_send_failed-IsTracked, mark_request_sent-IsTracked,
  mark_request_deferred-IsTracked, mark_invalid-IsTracked, mark_cancelled-IsTracked,
  process_timeouts-IsTracked,
}
use retiboard.Swarm.Fresh.{IsFresh, IsDistinct, plan_requests-IsTracked}
use retiboard.Swarm.Start.{IsSound, update_peer_availability-IsSound, new_fetcher-IsSound}
use retiboard.Swarm.Ended.{mark_chunk_stored-IsBounded, ended-IsBounded}

add_zero : (n : ℕ) → n + 0 ≡ n
add_zero n = omega arith

-- One call of a method that changes the state. A plan whose sending failed is one that was made, or
-- its request is gone, and then the failure is late and counts 1; the identifiers that are drawn are
-- new, since they are random.
pub data Step (s : SwarmFetcher) : ℕ → SwarmFetcher → Type 0 where
  learns :
      (peer : String) (ranges : List (ℤ × ℤ)) → Step s 0 (update_peer_availability s peer ranges)
  restores :
      (peer : String) (timeouts invalid successes cooldown : ℕ)
      → Step s 0 (apply_persisted_peer_state s peer timeouts invalid successes cooldown)
  not_sent :
      (plan : RequestPlan)
      → ((j : ℕ) → filed s j plan.request_id ≡ true → j ≡ plan.chunk_index)
      → Step s (lateness s plan) (mark_send_failed s plan)
  sent : (request_id : String) → Step s 0 (mark_request_sent s request_id)
  deferred :
      (request_id : String) (state : ChunkFetchState)
      → Step s 0 (mark_request_deferred s request_id state)
  answered : (request_id : String) → Step s 0 (mark_chunk_stored s request_id).0
  answered_wrong : (now : ℕ) (request_id : String) → Step s 0 (mark_invalid now s request_id)
  gives_up : (request_id : String) → Step s 0 (mark_cancelled s request_id)
  times_out : (now : ℕ) → Step s 0 (process_timeouts now s).0
  reports : Step s 0 (take_recent_timeouts s).0
  plans :
      (next_chunk_timeout : ℕ → ℕ) (uuid : ℕ → String) (now : ℕ)
      → IsDistinct uuid
      → IsFresh uuid 0 s
      → Step s 0 (plan_requests next_chunk_timeout uuid now s).0

-- After calls among which as many failures of sending as the number says were late.
pub data Reach : ℕ → SwarmFetcher → Type 0 where
  init :
      (peers : List String) (chunk_count : ℕ) (total per_peer : Option ℕ) (attempts : ℕ)
      (mode : PriorityMode) (ranges : Dict String (List (ℤ × ℤ))) (low_bandwidth : Bool)
      → Reach 0 (new_fetcher peers chunk_count total per_peer attempts mode ranges low_bandwidth)
  next :
      {n : ℕ} {s : SwarmFetcher} {m : ℕ} {u : SwarmFetcher}
      → Reach n s
      → Step s m u
      → Reach (n + m) u

Step-IsBounded :
    {s : SwarmFetcher} {m : ℕ} {u : SwarmFetcher} → Step s m u → IsSound s → IsBounded u
unfolding apply_persisted_peer_state mark_send_failed mark_request_sent mark_request_deferred
    mark_invalid mark_cancelled take_recent_timeouts punished_invalid
Step-IsBounded {s = s} (learns peer ranges) h =
    (update_peer_availability-IsSound s peer ranges h).bounded
Step-IsBounded {s = s} (restores peer timeouts invalid successes cooldown) h =
    lighter _ peer s (λ p. omega arith) h.bounded
Step-IsBounded {s = s} (not_sent plan own) h =
    ended-IsBounded landed (given_up plan.request_id) plan.peer_lxmf_hash plan.chunk_index
      plan.request_id s (λ p. omega arith) h.bounded
Step-IsBounded {s = s} (sent x) h = elim (Option-cases (lookup x s.requests)) [
  | inl e ↦ rw (e, mark_request_sent) h.bounded
  | inr (r, e) ↦
      rw (e, mark_request_sent)
        (rechunked (λ c. if c.is_stored then c else record c { state = requested }) r.chunk_index s
          h.bounded)
]
Step-IsBounded {s = s} (deferred x state) h = elim (Option-cases (lookup x s.requests)) [
  | inl e ↦ rw (e, mark_request_deferred) h.bounded
  | inr (r, e) ↦
      rw (e, mark_request_deferred)
        (ended-IsBounded landed
          (λ c. without_request state x (record c { attempt_count = c.attempt_count - 1 }))
          r.peer_lxmf_hash r.chunk_index x s (λ p. omega arith) h.bounded)
]
Step-IsBounded {s = s} (answered x) h = mark_chunk_stored-IsBounded s x h.bounded
Step-IsBounded {s = s} (answered_wrong now x) h = elim (Option-cases (lookup x s.requests)) [
  | inl e ↦ rw (e, mark_invalid) h.bounded
  | inr (r, e) ↦
      rw (e, mark_invalid)
        (ended-IsBounded (punished_invalid now) (given_up x) r.peer_lxmf_hash r.chunk_index x s
          (λ p. omega arith) h.bounded)
]
Step-IsBounded {s = s} (gives_up x) h = elim (Option-cases (lookup x s.requests)) [
  | inl e ↦ rw (e, mark_cancelled) h.bounded
  | inr (r, e) ↦
      rw (e, mark_cancelled)
        (ended-IsBounded landed (without_request cancelled x) r.peer_lxmf_hash r.chunk_index x s
          (λ p. omega arith) h.bounded)
]
Step-IsBounded {s = s} (times_out now) h = process_timeouts-IsBounded now s h.bounded
Step-IsBounded {s = s} reports h = record { total = h.bounded.total; each = h.bounded.each }
Step-IsBounded {s = s} (plans timeout uuid now distinct fresh) h =
    plan_requests-IsBounded timeout uuid now s h.bounded

Step-IsTracked :
    {s : SwarmFetcher} {m : ℕ} {u : SwarmFetcher} → Step s m u → IsSound s → IsTracked u
unfolding apply_persisted_peer_state on_peer take_recent_timeouts
Step-IsTracked {s = s} (learns peer ranges) h =
    (update_peer_availability-IsSound s peer ranges h).tracked
Step-IsTracked {s = s} (restores peer timeouts invalid successes cooldown) h =
    same_tables s _ refl refl h.tracked
Step-IsTracked {s = s} (not_sent plan own) h = mark_send_failed-IsTracked s plan own h.tracked
Step-IsTracked {s = s} (sent x) h = mark_request_sent-IsTracked s x h.tracked
Step-IsTracked {s = s} (deferred x state) h = mark_request_deferred-IsTracked s x state h.tracked
Step-IsTracked {s = s} (answered x) h = mark_chunk_stored-IsTracked s x h.tracked
Step-IsTracked {s = s} (answered_wrong now x) h = mark_invalid-IsTracked now s x h.tracked
Step-IsTracked {s = s} (gives_up x) h = mark_cancelled-IsTracked s x h.tracked
Step-IsTracked {s = s} (times_out now) h = process_timeouts-IsTracked now s h.tracked
Step-IsTracked {s = s} reports h = same_tables s _ refl refl h.tracked
Step-IsTracked {s = s} (plans timeout uuid now distinct fresh) h =
    plan_requests-IsTracked timeout uuid now distinct s fresh h.tracked

Reach-IsSound : {n : ℕ} {s : SwarmFetcher} → Reach n s → IsSound s
Reach-IsSound (init peers chunk_count total per_peer attempts mode ranges low_bandwidth) =
    new_fetcher-IsSound peers chunk_count total per_peer attempts mode ranges low_bandwidth
Reach-IsSound (next reach step) =
    let sound = Reach-IsSound reach in
    record { tracked = Step-IsTracked step sound; bounded = Step-IsBounded step sound }

Step-Counts :
    {s : SwarmFetcher} {m : ℕ} {u : SwarmFetcher} (late : ℕ)
    → Step s m u
    → IsSound s
    → Counts late s
    → Counts (late + m) u
unfolding take_recent_timeouts
Step-Counts {s = s} late (not_sent plan own) sound h = mark_send_failed-Counts late s plan h
Step-Counts {s = s} late (learns peer ranges) sound h =
    rw (add_zero late) (update_peer_availability-Counts late s peer ranges h)
Step-Counts {s = s} late (restores peer timeouts invalid successes cooldown) sound h =
    rw (add_zero late)
      (apply_persisted_peer_state-Counts late s peer timeouts invalid successes cooldown h)
Step-Counts {s = s} late (sent x) sound h = rw (add_zero late) (mark_request_sent-Counts late s x h)
Step-Counts {s = s} late (deferred x state) sound h =
    rw (add_zero late) (mark_request_deferred-Counts late s x state h)
Step-Counts {s = s} late (answered x) sound h =
    rw (add_zero late) (mark_chunk_stored-Counts late s x h)
Step-Counts {s = s} late (answered_wrong now x) sound h =
    rw (add_zero late) (mark_invalid-Counts late now s x h)
Step-Counts {s = s} late (gives_up x) sound h =
    rw (add_zero late) (mark_cancelled-Counts late s x h)
Step-Counts {s = s} late (times_out now) sound h =
    rw (add_zero late)
      (process_timeouts-IsServed late now s (record { bounded = sound.bounded; counts = h })).counts
Step-Counts {s = s} late reports sound h = rw (add_zero late) h
Step-Counts {s = s} late (plans timeout uuid now distinct fresh) sound h =
    rw (add_zero late)
      (plan_requests-IsServed late timeout uuid now s ""
        (record { bounded = sound.bounded; counts = h })).0.counts

Reach-Counts : {n : ℕ} {s : SwarmFetcher} → Reach n s → Counts n s
Reach-Counts (init peers chunk_count total per_peer attempts mode ranges low_bandwidth) =
    new_fetcher-Counts peers chunk_count total per_peer attempts mode ranges low_bandwidth
Reach-Counts (next {n = n} reach step) =
    Step-Counts n step (Reach-IsSound reach) (Reach-Counts reach)

-- After any sequence of calls in which the drawn identifiers are new, and a plan whose sending
-- failed is one whose request is filed under its chunk or gone: a request is filed under a chunk
-- exactly when the chunk holds it; all requests are within `max_inflight_total`; and the requests
-- that are filed for a peer are at most `max_inflight_per_peer`, and as many more as there were
-- failures of sending whose request was not filed for the plan's peer any more.
pub Reach-Agrees :
    {n : ℕ} {s : SwarmFetcher} (i : ℕ) (request_id peer : String)
    → Reach n s
    → (holds s i request_id ≡ filed s i request_id)
      × (length s.requests ≤ s.max_inflight_total)
      × (requests_of s peer ≤ s.max_inflight_per_peer + n)
Reach-Agrees i request_id peer reach =
    let sound = Reach-IsSound reach in
    let counts = Reach-Counts reach in
    (
      sound.tracked.agree i request_id,
      sound.bounded.total,
      omega (arith, counts.counted peer, sound.bounded.each peer),
    )
