-- ===== src/Tests/Sessions.antt =====
-- One session asks for a slot.
use retiboard.Base.{◌⊎◌, text_key, ◌≡◌, refl, true, false, []}
use retiboard.Base.Int.{pos}
use retiboard.Base.Dict.{lookup}
use retiboard.Scheduler.{PayloadFetchScheduler, limits, register_session, try_acquire_request}
use retiboard.Scheduler.Fairness.{Unchanged, Granted, try_acquire_request-Granted}
use retiboard.Scheduler.Tracking.{
  holds, filed, registers, acquires, Reach, init, next, Reach-IsTracked,
}

abbrev nothing_yet : PayloadFetchScheduler
nothing_yet = record { sessions = []; requests = [] }

abbrev one_session : PayloadFetchScheduler
one_session = (register_session true 5 nothing_yet "s" "blob" "attachments" (pos 9000000) false).0

abbrev one_request : PayloadFetchScheduler
one_request = (try_acquire_request true 6 one_session "s" "r").0

try_acquire_request-Granted_example :
    Unchanged one_session "s" "r" (try_acquire_request true 6 one_session "s" "r")
    ⊎ Granted (limits true) one_session "s" "r" (try_acquire_request true 6 one_session "s" "r")
try_acquire_request-Granted_example = try_acquire_request-Granted true 6 one_session "s" "r"

reached : Reach one_request
unfolding register_session lookup
reached =
    next (next init (registers true 5 "s" "blob" "attachments" (pos 9000000) false))
      (acquires true 6 "s" "r" refl)

Reach-IsTracked_example : holds one_request "s" "r" ≡ filed one_request "s" "r"
Reach-IsTracked_example = Reach-IsTracked "s" "r" reached
