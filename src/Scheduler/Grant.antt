-- ===== src/Scheduler/Grant.antt =====
-- The sums that `try_acquire_request` reads, before and after a new request.
use retiboard.Base.{
  text_key, ℕ, ◌+◌, ◌-◌, ◌≤◌, ◌<◌, max, ◌≡◌, refl, ◌⊎◌, inl, inr, leb, Bool-cases, if◌then◌else◌,
  arith, Bool, true, false, not, String, [], ◌∷◌, some,
}
use retiboard.Base.Dict.{Dict, lookup, total, total-insert}
use retiboard.Base.Sets.{contains, add, length-add}
use retiboard.Scheduler.{
  PriorityClass, interactive, manual, normal, bulk, is_prompt, is_bulk, SessionState,
  PayloadFetchScheduler, FetchLimits, active, active_if, total_active, interactive_active,
  bulk_active, class_allows, may_start, start_request,
}

abbrev pub is_background : PriorityClass → Bool
is_background c = not (is_prompt c)

-- The requests of large and of ordinary transfers that nobody waits for.
abbrev pub background_active : PayloadFetchScheduler → ℕ
background_active s = total (active_if is_background) s.sessions

pub total-split :
    (sessions : Dict String SessionState)
    → total active sessions
      ≡ total (active_if is_prompt) sessions + total (active_if is_background) sessions
unfolding total
total-split [] = refl
total-split ((k, state) ∷ sessions) = ground (arith, total-split sessions)

module _ (s : PayloadFetchScheduler) (state : SessionState) (session_id request_id : String)
    (known : lookup session_id s.sessions ≡ some state)
    (fresh : contains request_id state.active_request_ids ≡ false) where
  abbrev started : PayloadFetchScheduler
  started = start_request s state session_id request_id

  -- A sum over the classes that pass a test grows by one if the session's class passes it.
  pub total-start :
      (test : PriorityClass → Bool)
      → total (active_if test) started.sessions
        ≡ total (active_if test) s.sessions + (if test state.priority_class then 1 else 0)
  unfolding start_request
  total-start test = ground (
    arith,
    total-insert (active_if test) session_id
        (record state { active_request_ids = add request_id state.active_request_ids }) s.sessions,
    length-add request_id state.active_request_ids,
  )

  pub total_active-start : total_active started ≡ total_active s + 1
  unfolding start_request
  total_active-start = ground (
    arith,
    total-insert active session_id
        (record state { active_request_ids = add request_id state.active_request_ids }) s.sessions,
    length-add request_id state.active_request_ids,
  )

-- What the tests have found out where `may_start` says yes.
abbrev Reserve : FetchLimits → PayloadFetchScheduler → PriorityClass → Type 0
Reserve l s c =
    ((is_prompt c ≡ true)
      ⊎ ((total_active s < max 1 (l.global_cap - 1)) ⊎ (l.interactive_cap ≤ interactive_active s)))
    × ((is_bulk c ≡ false) ⊎ (bulk_active s < l.bulk_cap))

class_allows-Reserve :
    (l : FetchLimits) (now : ℕ) (s : PayloadFetchScheduler) (state : SessionState)
    (c : PriorityClass)
    → class_allows l now s state c ≡ true
    → Reserve l s c
unfolding class_allows
class_allows-Reserve l now s state interactive h = ground arith
class_allows-Reserve l now s state manual h = ground arith
class_allows-Reserve l now s state normal h = ground arith
class_allows-Reserve l now s state bulk h = ground arith

pub record Room (l : FetchLimits) (s : PayloadFetchScheduler) (state : SessionState) : Type 0 where
  pub global : total_active s < l.global_cap
  pub own : active state < max 1 state.max_parallelism
  pub reserve : Reserve l s state.priority_class

pub may_start-Room :
    (l : FetchLimits) (now : ℕ) (s : PayloadFetchScheduler) (state : SessionState)
    → may_start l now s state ≡ true
    → Room l s state
unfolding may_start
may_start-Room l now s state h = elim (Bool-cases (leb l.global_cap (total_active s))) [
  | inl full ↦ cc
  | inr room ↦ elim (Bool-cases (leb (max 1 state.max_parallelism) (active state))) [
    | inl own ↦ cc
    | inr own ↦ record {
      global = ground arith;
      own = ground arith;
      reserve = class_allows-Reserve l now s state state.priority_class (rw own at (rw room at h));
    }
  ]
]
