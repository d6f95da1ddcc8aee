-- ===== src/Scheduler.antt =====
-- retiboard/sync/payload_scheduler.py: which session may send one more fetch request. Whether the
-- link is slow (`transport.is_low_bandwidth`) is an argument, as is the time. Each method runs under
-- the lock, so that it is one step.
pub mod Grant
pub mod Fairness
pub mod Tracking
use retiboard.Base.{
  text_key, ℕ, suc, zero, ◌-◌, ◌*◌, max, leb, ltb, if◌then◌else◌, Bool, true, false, not, ◌&&◌,
  ◌||◌, String, same, truthy, List, [], ◌∷◌, length, none, some,
}
use retiboard.Base.Int.{ℤ, pos, negsuc}
use retiboard.Base.Time.{seconds}
use retiboard.Base.Dict.{Dict, lookup, insert, erase, total}
use retiboard.Base.Sets.{contains, add, discard}

abbrev pub small_attachment_bytes : ℕ
small_attachment_bytes = 256 * 1024

abbrev pub large_attachment_bytes : ℕ
large_attachment_bytes = 8 * 1024 * 1024

abbrev pub bulk_aging_seconds : ℕ
bulk_aging_seconds = seconds 20

pub data PriorityClass : Type 0 where
  interactive manual normal bulk : PriorityClass

-- `in {'interactive', 'manual'}`
abbrev pub is_prompt : PriorityClass → Bool
is_prompt interactive = true
is_prompt manual = true
is_prompt normal = false
is_prompt bulk = false

abbrev pub is_bulk : PriorityClass → Bool
is_bulk bulk = true
is_bulk interactive = false
is_bulk manual = false
is_bulk normal = false

pub record FetchPolicyDecision : Type 0 where
  pub allowed_auto : Bool
  pub allowed_manual : Bool
  pub priority_class : PriorityClass
  pub max_session_parallelism : ℕ
  pub ui_reason : String

pub record SessionState : Type 0 where
  pub session_id : String
  pub blob_hash : String
  pub blob_kind : String
  pub expected_size : ℕ
  pub manual_override : Bool
  pub priority_class : PriorityClass
  pub max_parallelism : ℕ
  pub registered_at : ℕ
  pub active_request_ids : List String

pub record PayloadFetchScheduler : Type 0 where
  pub sessions : Dict String SessionState
  pub requests : Dict String String

pub record FetchLimits : Type 0 where
  pub global_cap : ℕ
  pub interactive_cap : ℕ
  pub bulk_cap : ℕ

unfoldable pub limits : Bool → FetchLimits
limits low_bandwidth =
    if low_bandwidth
    then record { global_cap = 2; interactive_cap = 1; bulk_cap = 1 }
    else record { global_cap = 12; interactive_cap = 4; bulk_cap = 2 }

-- `max(0, int(size or 0))`
abbrev pub size_of : ℤ → ℕ
size_of (pos n) = n
size_of (negsuc n) = 0

-- `max(0, int(size or old))`
abbrev pub size_or : ℤ → ℕ → ℕ
size_or (pos zero) old = old
size_or (pos (suc n)) old = suc n
size_or (negsuc n) old = 0

-- `kind or other`
abbrev pub text_or : String → String → String
text_or kind other = if truthy kind then kind else other

abbrev decision : Bool → PriorityClass → ℕ → FetchPolicyDecision
decision auto class parallelism = record {
  allowed_auto = auto;
  allowed_manual = true;
  priority_class = class;
  max_session_parallelism = parallelism;
  ui_reason = "";
}

unfoldable pub classify : Bool → String → ℤ → Bool → FetchPolicyDecision
classify low_bandwidth blob_kind expected_size manual_override =
    let size = size_of expected_size in
    if not (same (text_or blob_kind "text") "attachments")
    then decision true interactive 4
    else if manual_override
    then decision false manual (if low_bandwidth then 1 else 4)
    else if leb size 0 || leb size small_attachment_bytes
    then decision true interactive 4
    else if leb large_attachment_bytes size
    then decision false bulk 2
    else decision false normal (if low_bandwidth then 1 else 3)

unfoldable pub new_session :
    ℕ → FetchPolicyDecision → (session_id blob_hash blob_kind : String) → ℤ → Bool → SessionState
new_session now d session_id blob_hash blob_kind expected_size manual_override = record {
  session_id = session_id;
  blob_hash = blob_hash;
  blob_kind = text_or blob_kind "text";
  expected_size = size_of expected_size;
  manual_override = manual_override;
  priority_class = d.priority_class;
  max_parallelism = max 1 d.max_session_parallelism;
  registered_at = now;
  active_request_ids = [];
}

unfoldable pub update_session :
    SessionState → FetchPolicyDecision → (blob_hash blob_kind : String) → ℤ → Bool → SessionState
update_session state d blob_hash blob_kind expected_size manual_override = record state {
  blob_hash = blob_hash;
  blob_kind = text_or blob_kind (text_or state.blob_kind "text");
  expected_size = size_or expected_size state.expected_size;
  manual_override = manual_override;
  priority_class = d.priority_class;
  max_parallelism = max 1 d.max_session_parallelism;
}

unfoldable pub register_session :
    Bool
    → ℕ
    → PayloadFetchScheduler
    → (session_id blob_hash blob_kind : String) → ℤ
    → Bool
    → PayloadFetchScheduler × FetchPolicyDecision
unfolding new_session update_session
register_session low_bandwidth now s session_id blob_hash blob_kind expected_size manual_override =
    let d = classify low_bandwidth blob_kind expected_size manual_override in
    let state : SessionState = elim (lookup session_id s.sessions) [
      | none ↦ new_session now d session_id blob_hash blob_kind expected_size manual_override
      | some old ↦ update_session old d blob_hash blob_kind expected_size manual_override
    ] in
    (record s { sessions = insert session_id state s.sessions }, d)

-- The loop that pops the requests of a session.
unfoldable pub erase_all : List String → Dict String String → Dict String String
erase_all [] requests = requests
erase_all (r ∷ rs) requests = erase_all rs (erase r requests)

unfoldable pub unregister_session : PayloadFetchScheduler → String → PayloadFetchScheduler
unfolding erase_all
unregister_session s session_id = elim (lookup session_id s.sessions) [
  | none ↦ s
  | some state ↦ record {
    sessions = erase session_id s.sessions;
    requests = erase_all state.active_request_ids s.requests;
  }
]

-- The session of a released request forgets it.
unfoldable pub discard_from : Dict String SessionState → String → String → Dict String SessionState
discard_from sessions session_id request_id = elim (lookup session_id sessions) [
  | none ↦ sessions
  | some state ↦
      insert session_id
        (record state { active_request_ids = discard request_id state.active_request_ids }) sessions
]

unfoldable pub release_request : PayloadFetchScheduler → String → PayloadFetchScheduler
unfolding discard_from
release_request s request_id =
    if not (truthy request_id) then s else elim (lookup request_id s.requests) [
      | none ↦ s
      | some session_id ↦ record {
        sessions = discard_from s.sessions session_id request_id;
        requests = erase request_id s.requests;
      }
    ]

unfoldable pub release_session_requests : PayloadFetchScheduler → String → PayloadFetchScheduler
unfolding erase_all
release_session_requests s session_id = elim (lookup session_id s.sessions) [
  | none ↦ s
  | some state ↦ record {
    sessions = insert session_id (record state { active_request_ids = [] }) s.sessions;
    requests = erase_all state.active_request_ids s.requests;
  }
]

abbrev pub active : SessionState → ℕ
active state = length state.active_request_ids

abbrev pub active_if : (PriorityClass → Bool) → SessionState → ℕ
active_if test state = if test state.priority_class then active state else 0

abbrev pub total_active : PayloadFetchScheduler → ℕ
total_active s = total active s.sessions

abbrev pub interactive_active : PayloadFetchScheduler → ℕ
interactive_active s = total (active_if is_prompt) s.sessions

abbrev pub bulk_active : PayloadFetchScheduler → ℕ
bulk_active s = total (active_if is_bulk) s.sessions

-- The tests of `try_acquire_request` on the priority class, once the global and the session's own
-- limits leave room.
unfoldable pub class_allows :
    FetchLimits → ℕ → PayloadFetchScheduler → SessionState → PriorityClass → Bool
class_allows l now s state interactive = true
class_allows l now s state manual = true
class_allows l now s state normal = not (
    leb (max 1 (l.global_cap - 1)) (total_active s) && ltb (interactive_active s) l.interactive_cap)
class_allows l now s state bulk =
    if leb l.bulk_cap (bulk_active s)
    then false
    else if leb (max 1 (l.global_cap - 1)) (total_active s)
    then (if ltb (interactive_active s) l.interactive_cap
        then false
        else not (ltb (now - state.registered_at) bulk_aging_seconds))
    else true

unfoldable pub may_start : FetchLimits → ℕ → PayloadFetchScheduler → SessionState → Bool
unfolding class_allows
may_start l now s state =
    if leb l.global_cap (total_active s)
    then false
    else if leb (max 1 state.max_parallelism) (active state)
    then false
    else class_allows l now s state state.priority_class

unfoldable pub start_request :
    PayloadFetchScheduler → SessionState → (session_id request_id : String) → PayloadFetchScheduler
start_request s state session_id request_id = record {
  sessions =
      insert session_id
        (record state { active_request_ids = add request_id state.active_request_ids }) s.sessions;
  requests = insert request_id session_id s.requests;
}

unfoldable pub acquire_in :
    FetchLimits
    → ℕ
    → PayloadFetchScheduler
    → (session_id request_id : String) → SessionState
    → PayloadFetchScheduler × Bool
unfolding may_start start_request
acquire_in l now s session_id request_id state =
    if contains request_id state.active_request_ids
    then (s, true)
    else if may_start l now s state
    then (start_request s state session_id request_id, true)
    else (s, false)

unfoldable pub try_acquire_request :
    Bool
    → ℕ
    → PayloadFetchScheduler
    → (session_id request_id : String) → PayloadFetchScheduler × Bool
unfolding acquire_in limits
try_acquire_request low_bandwidth now s session_id request_id =
    if not (truthy session_id) || not (truthy request_id)
    then (s, false)
    else elim (lookup session_id s.sessions) [
      | none ↦ (s, false)
      | some state ↦ acquire_in (limits low_bandwidth) now s session_id request_id state
    ]
