-- ===== src/Scheduler/Fairness.antt =====
-- What a request that `try_acquire_request` grants leaves for others.
use retiboard.Base.{
  text_key, ℕ, ◌+◌, ◌≤◌, ◌<◌, ◌≡◌, ◌⊎◌, refl, max, inl, inr, Bool-cases, Option-cases, arith, Bool,
  true, false, not, ◌||◌, truthy, String, some, sym, subst,
}
use retiboard.Base.Dict.{lookup}
use retiboard.Base.Sets.{contains}
use retiboard.Scheduler.{
  is_prompt, is_bulk, active, SessionState, PayloadFetchScheduler, FetchLimits, limits,
  total_active, bulk_active, may_start, start_request, acquire_in, try_acquire_request,
}
use retiboard.Scheduler.Grant.{
  is_background, background_active, total-split, total-start, total_active-start, Room,
  may_start-Room,
}

-- After the start of a request of a session: all requests are within the global limit, and those of the
-- session within its own; if the session is bulk, those of bulk sessions are within theirs; and if
-- it is neither manual nor interactive, those of such sessions leave one slot.
pub record Fits (l : FetchLimits) (state : SessionState) (s : PayloadFetchScheduler) : Type 0 where
  pub global : total_active s ≤ l.global_cap
  pub own : active state + 1 ≤ max 1 state.max_parallelism
  pub bulks : (is_bulk state.priority_class ≡ false) ⊎ (bulk_active s ≤ l.bulk_cap)
  pub reserved : (is_prompt state.priority_class ≡ true) ⊎ (background_active s + 1 ≤ l.global_cap)

start-Fits :
    (l : FetchLimits) (s : PayloadFetchScheduler) (state : SessionState)
    (session_id request_id : String)
    → 0 < l.interactive_cap
    → 1 < l.global_cap
    → lookup session_id s.sessions ≡ some state
    → contains request_id state.active_request_ids ≡ false
    → Room l s state
    → Fits l state (start_request s state session_id request_id)
start-Fits l s state session_id request_id pos two known fresh room =
    let all = total_active-start s state session_id request_id known fresh in
    let bulk = total-start s state session_id request_id known fresh is_bulk in
    let background = total-start s state session_id request_id known fresh is_background in
    record {
      global = omega (arith, all, room.global);
      own = omega (arith, room.own);
      bulks = ground (arith, bulk, room.reserve.1);
      reserved = ground (arith, background, total-split s.sessions, room.reserve.0, room.global);
    }

-- Nothing changes, and the answer is no, or the session holds the request already.
abbrev pub Unchanged :
    PayloadFetchScheduler → (session_id request_id : String) → PayloadFetchScheduler × Bool → Type 0
Unchanged s session_id request_id answer =
    (answer.0 ≡ s)
    × ((answer.1 ≡ false)
        ⊎ ((state : SessionState) × (lookup session_id s.sessions ≡ some state)
            × (contains request_id state.active_request_ids ≡ true)))

abbrev pub Granted :
    FetchLimits
    → PayloadFetchScheduler
    → (session_id request_id : String) → PayloadFetchScheduler × Bool
    → Type 0
Granted l s session_id request_id answer =
    (state : SessionState) × (lookup session_id s.sessions ≡ some state)
    × (answer ≡ (start_request s state session_id request_id, true))
    × Fits l state answer.0

acquire_in-Granted :
    (l : FetchLimits) (now : ℕ) (s : PayloadFetchScheduler) (session_id request_id : String)
    (state : SessionState)
    → 0 < l.interactive_cap
    → 1 < l.global_cap
    → lookup session_id s.sessions ≡ some state
    → Unchanged s session_id request_id (acquire_in l now s session_id request_id state)
      ⊎ Granted l s session_id request_id (acquire_in l now s session_id request_id state)
unfolding acquire_in
acquire_in-Granted l now s session_id request_id state pos two known =
    elim (Bool-cases (contains request_id state.active_request_ids)) [
      | inl held ↦ inl (rw held refl, inr (state, known, held))
      | inr fresh ↦ elim (Bool-cases (may_start l now s state)) [
        | inr refused ↦ inl (rw (fresh, refused) refl, inl (rw (fresh, refused) refl))
        | inl start ↦ inr (
          state,
          known,
          rw (fresh, start) refl,
          rw (fresh, start)
              (start-Fits l s state session_id request_id pos two known fresh
                (may_start-Room l now s state start)),
        )
      ]
    ]

in_session :
    (low_bandwidth : Bool) (now : ℕ) (s : PayloadFetchScheduler) (session_id request_id : String)
    (state : SessionState)
    → (not (truthy session_id) || not (truthy request_id)) ≡ false
    → lookup session_id s.sessions ≡ some state
    → try_acquire_request low_bandwidth now s session_id request_id
      ≡ acquire_in (limits low_bandwidth) now s session_id request_id state
unfolding try_acquire_request
in_session low_bandwidth now s session_id request_id state good known =
    rw (good, known, try_acquire_request) refl

-- `try_acquire_request` changes nothing, or it starts one request of a session that is registered, and
-- that only where it fits, whatever the sessions hold and however they were classed before: afterwards
-- all requests are within the global limit and those of the session within its own; those of bulk
-- sessions are within their limit, if the session is bulk; and if nobody waits for the session, which is
-- normal or bulk, all such sessions together hold at least one slot less than there are. Requests that
-- were granted earlier count as what their session is now.
pub try_acquire_request-Granted :
    (low_bandwidth : Bool) (now : ℕ) (s : PayloadFetchScheduler) (session_id request_id : String)
    → Unchanged s session_id request_id
        (try_acquire_request low_bandwidth now s session_id request_id)
      ⊎ Granted
          (limits low_bandwidth)
          s
          session_id
          request_id
          (try_acquire_request low_bandwidth now s session_id request_id)
unfolding try_acquire_request
try_acquire_request-Granted low_bandwidth now s session_id request_id =
    elim (Bool-cases (not (truthy session_id) || not (truthy request_id))) [
      | inl bad ↦ inl (rw bad refl, inl (rw bad refl))
      | inr good ↦ elim (Option-cases (lookup session_id s.sessions)) [
        | inl e ↦
            inl
              (rw (good, e, try_acquire_request) refl, inl (rw (good, e, try_acquire_request) refl))
        | inr (state, e) ↦
            subst
              (λ answer.
                Unchanged s session_id request_id answer
                ⊎ Granted (limits low_bandwidth) s session_id request_id answer)
              (sym (in_session low_bandwidth now s session_id request_id state good e))
              (acquire_in-Granted (limits low_bandwidth) now s session_id request_id state
                (ground arith) (ground arith) e)
      ]
    ]
