-- ===== src/Scheduler/Tracking.antt =====
-- The two tables of the scheduler: the requests that a session holds, and the session of a request.
use retiboard.Base.{
  text_key, ℕ, ◌≡◌, refl, inl, inr, Bool-cases, Option-cases, if◌then◌else◌, arith, Bool, false,
  not, ◌||◌, truthy, same, String, List, [], ◌∷◌, none, some,
}
use retiboard.Base.Int.{ℤ}
use retiboard.Base.Dict.{Dict, lookup, insert, erase, lookup-insert, lookup-erase}
use retiboard.Base.Sets.{contains, add, discard, contains-add, contains-discard}
use retiboard.Scheduler.{
  SessionState, PayloadFetchScheduler, limits, register_session, erase_all, unregister_session,
  discard_from, release_request, release_session_requests, may_start, start_request,
  try_acquire_request,
}

abbrev pub holds : PayloadFetchScheduler → String → String → Bool
holds s session_id request_id = elim (lookup session_id s.sessions) [
  | none ↦ false
  | some state ↦ contains request_id state.active_request_ids
]

abbrev pub filed : PayloadFetchScheduler → String → String → Bool
filed s session_id request_id = elim (lookup request_id s.requests) [
  | none ↦ false
  | some owner ↦ same owner session_id
]

abbrev pub IsTracked : PayloadFetchScheduler → Type 0
IsTracked s =
    (session_id request_id : String) → holds s session_id request_id ≡ filed s session_id request_id

lookup-erase_all :
    (rs : List String) (r : String) (requests : Dict String String)
    → lookup r (erase_all rs requests) ≡ (if contains r rs then none else lookup r requests)
unfolding erase_all contains
lookup-erase_all [] r requests = refl
lookup-erase_all (q ∷ rs) r requests =
    ground (arith, lookup-erase_all rs r (erase q requests), lookup-erase q r requests)

start_request-IsTracked :
    (s : PayloadFetchScheduler) (state : SessionState) (session_id request_id : String)
    → lookup session_id s.sessions ≡ some state
    → lookup request_id s.requests ≡ none
    → IsTracked s
    → IsTracked (start_request s state session_id request_id)
unfolding start_request
start_request-IsTracked s state session_id request_id known new t sid r = ground (
  arith,
  t sid r,
  t sid request_id,
  lookup-insert session_id sid
      (record state { active_request_ids = add request_id state.active_request_ids }) s.sessions,
  lookup-insert request_id r session_id s.requests,
  contains-add request_id r state.active_request_ids,
)

acquire-IsTracked :
    (low_bandwidth : Bool) (now : ℕ) (s : PayloadFetchScheduler) (session_id request_id : String)
    → lookup request_id s.requests ≡ none
    → IsTracked s
    → IsTracked (try_acquire_request low_bandwidth now s session_id request_id).0
unfolding try_acquire_request
acquire-IsTracked low_bandwidth now s session_id request_id new t =
    elim (Bool-cases (not (truthy session_id) || not (truthy request_id))) [
      | inl bad ↦ rw bad t
      | inr good ↦ elim (Option-cases (lookup session_id s.sessions)) [
        | inl e ↦ rw (good, e, try_acquire_request) t
        | inr (state, e) ↦ elim (Bool-cases (contains request_id state.active_request_ids)) [
          | inl held ↦ rw (good, e, try_acquire_request, held) t
          | inr fresh ↦ elim (Bool-cases (may_start (limits low_bandwidth) now s state)) [
            | inr refused ↦ rw (good, e, try_acquire_request, fresh, refused) t
            | inl start ↦
                rw (good, e, try_acquire_request, fresh, start)
                  (start_request-IsTracked s state session_id request_id e new t)
          ]
        ]
      ]
    ]

release_request-IsTracked :
    (s : PayloadFetchScheduler) (request_id : String)
    → IsTracked s
    → IsTracked (release_request s request_id)
unfolding release_request
release_request-IsTracked s request_id t = elim (Bool-cases (truthy request_id)) [
  | inr e ↦ rw e t
  | inl e ↦ elim (Option-cases (lookup request_id s.requests)) [
    | inl f ↦ rw (e, f, release_request) t
    | inr (owner, f) ↦ elim (Option-cases (lookup owner s.sessions)) [
      | inl g ↦
          rw (e, f, release_request, g, discard_from) λ sid r. ground (arith, t owner request_id)
      | inr (state, g) ↦
          rw (e, f, release_request, g, discard_from)
            λ sid r. ground (
              arith,
              t sid r,
              t sid request_id,
              lookup-insert owner sid
                  (record state {
                    active_request_ids = discard request_id state.active_request_ids;
                  })
                  s.sessions,
              lookup-erase request_id r s.requests,
              contains-discard request_id r state.active_request_ids,
            )
    ]
  ]
]

-- All requests of a session are dropped from both tables.
drop_session-filed :
    (s : PayloadFetchScheduler) (state : SessionState) (session_id sid r : String)
    → lookup session_id s.sessions ≡ some state
    → IsTracked s
    → (if same session_id sid then false else holds s sid r)
      ≡ filed (record s { requests = erase_all state.active_request_ids s.requests }) sid r
drop_session-filed s state session_id sid r known t =
    ground (arith, t sid r, t session_id r, lookup-erase_all state.active_request_ids r s.requests)

unregister_session-IsTracked :
    (s : PayloadFetchScheduler) (session_id : String)
    → IsTracked s
    → IsTracked (unregister_session s session_id)
unfolding unregister_session
unregister_session-IsTracked s session_id t = elim (Option-cases (lookup session_id s.sessions)) [
  | inl e ↦ rw (e, unregister_session) t
  | inr (state, e) ↦
      rw (e, unregister_session)
        λ sid r. ground (
          arith,
          drop_session-filed s state session_id sid r e t,
          lookup-erase session_id sid s.sessions,
        )
]

release_session_requests-IsTracked :
    (s : PayloadFetchScheduler) (session_id : String)
    → IsTracked s
    → IsTracked (release_session_requests s session_id)
unfolding release_session_requests contains
release_session_requests-IsTracked s session_id t =
    elim (Option-cases (lookup session_id s.sessions)) [
      | inl e ↦ rw (e, release_session_requests) t
      | inr (state, e) ↦
          rw (e, release_session_requests)
            λ sid r. ground (
              arith,
              drop_session-filed s state session_id sid r e t,
              lookup-insert session_id sid (record state { active_request_ids = [] }) s.sessions,
            )
    ]

-- A session is written anew with the requests that it holds.
rewrite_session-IsTracked :
    (s : PayloadFetchScheduler) (session_id : String) (state : SessionState)
    → ((r : String) → contains r state.active_request_ids ≡ holds s session_id r)
    → IsTracked s
    → IsTracked (record s { sessions = insert session_id state s.sessions })
rewrite_session-IsTracked s session_id state kept t sid r =
    ground (arith, t sid r, kept r, lookup-insert session_id sid state s.sessions)

register_session-IsTracked :
    (low_bandwidth : Bool) (now : ℕ) (s : PayloadFetchScheduler)
    (session_id blob_hash blob_kind : String) (size : ℤ) (manual : Bool)
    → IsTracked s
    → IsTracked (register_session low_bandwidth now s session_id blob_hash blob_kind size manual).0
unfolding register_session contains
register_session-IsTracked low_bandwidth now s session_id blob_hash blob_kind size manual t =
    elim (Option-cases (lookup session_id s.sessions)) [
      | inl e ↦
          rw (e, register_session)
            (rewrite_session-IsTracked s session_id _ (λ r. rw (e, holds) refl) t)
      | inr (state, e) ↦
          rw (e, register_session)
            (rewrite_session-IsTracked s session_id _ (λ r. rw (e, holds) refl) t)
    ]

-- One method call. The identifier of a request is new: it is a random UUID.
pub data Step (s : PayloadFetchScheduler) : PayloadFetchScheduler → Type 0 where
  registers :
      (low_bandwidth : Bool) (now : ℕ) (session_id blob_hash blob_kind : String) (size : ℤ)
      (manual : Bool)
      → Step s (register_session low_bandwidth now s session_id blob_hash blob_kind size manual).0
  unregisters : (session_id : String) → Step s (unregister_session s session_id)
  acquires :
      (low_bandwidth : Bool) (now : ℕ) (session_id request_id : String)
      → lookup request_id s.requests ≡ none
      → Step s (try_acquire_request low_bandwidth now s session_id request_id).0
  releases : (request_id : String) → Step s (release_request s request_id)
  releases_session : (session_id : String) → Step s (release_session_requests s session_id)

pub data Reach : PayloadFetchScheduler → Type 0 where
  init : Reach (record { sessions = []; requests = [] })
  next : {s u : PayloadFetchScheduler} → Reach s → Step s u → Reach u

Step-IsTracked : {s u : PayloadFetchScheduler} → Step s u → IsTracked s → IsTracked u
Step-IsTracked {s} (registers lb now sid hash kind size manual) t =
    register_session-IsTracked lb now s sid hash kind size manual t
Step-IsTracked {s} (unregisters sid) t = unregister_session-IsTracked s sid t
Step-IsTracked {s} (acquires lb now sid r new) t = acquire-IsTracked lb now s sid r new t
Step-IsTracked {s} (releases r) t = release_request-IsTracked s r t
Step-IsTracked {s} (releases_session sid) t = release_session_requests-IsTracked s sid t

-- After any sequence of calls in which each acquired request is new, a request is filed under a
-- session exactly when that session holds it: no slot leaks, and none is counted for nobody.
pub Reach-IsTracked :
    {s : PayloadFetchScheduler} (session_id request_id : String)
    → Reach s
    → holds s session_id request_id ≡ filed s session_id request_id
unfolding lookup
Reach-IsTracked sid r init = refl
Reach-IsTracked sid r (next reach step) =
    Step-IsTracked step (λ a b. Reach-IsTracked a b reach) sid r
