-- ===== src/Limiter.antt =====
-- retiboard/sync/rate_limiter.py: `SyncRateLimiter`, the slots for syncs of a board and the pauses
-- after failures. A semaphore is the number of its free slots; a call of `acquire` that has to wait is
-- none. The random part of a pause is an argument.
pub mod Pauses
pub mod Slots
use retiboard.Base.{
  Key, ◌≡◌, text_key, text_discrete, ℕ, zero, suc, ◌+◌, ◌-◌, ◌*◌, ◌^◌, min, leb, if◌then◌else◌,
  Bool, true, false, String, [], Option, none, some,
}
use retiboard.Base.Int.{ℤ, pos, negsuc}
use retiboard.Base.Time.{seconds}
use retiboard.Base.Dict.{Dict, lookup, insert, erase}

-- A board and a peer.
pub record BoardPeer : Type 0 where
  pub board_id : String
  pub peer_hex : String

same_parts :
    (p q : BoardPeer) → Dec (p.board_id ≡ q.board_id) → Dec (p.peer_hex ≡ q.peer_hex) → Dec (p ≡ q)
same_parts p q (yes a) (yes b) = yes (λ i. record { board_id = a i; peer_hex = b i })
same_parts p q (no a) b = no (λ e. a (λ i. (e i).board_id))
same_parts p q (yes a) (no b) = no (λ e. b (λ i. (e i).peer_hex))

unfoldable pub board_peer_discrete : Discrete BoardPeer
unfolding same_parts
board_peer_discrete p q =
    same_parts p q (text_discrete p.board_id q.board_id) (text_discrete p.peer_hex q.peer_hex)

instance abbrev pub board_peer_key : Key BoardPeer
board_peer_key = record { eq_dec = board_peer_discrete }

pub record SyncRateLimiter : Type 0 where
  pub is_low_bandwidth : Bool
  pub max_concurrent : ℕ
  pub semaphores : Dict String ℕ
  pub backoff : Dict BoardPeer ℕ
  pub failures : Dict BoardPeer ℕ

unfoldable pub new_limiter : Bool → SyncRateLimiter
new_limiter is_low_bandwidth = record {
  is_low_bandwidth = is_low_bandwidth;
  max_concurrent = if is_low_bandwidth then 2 else 5;
  semaphores = [];
  backoff = [];
  failures = [];
}

-- The free slots of a board.
unfoldable pub slots : SyncRateLimiter → String → ℕ
slots l board_id = elim (lookup board_id l.semaphores) [ none ↦ l.max_concurrent | some n ↦ n ]

unfoldable pub acquire : SyncRateLimiter → String → Option SyncRateLimiter
unfolding slots
acquire l board_id = elim (slots l board_id) [
  | zero ↦ none
  | suc n ↦ some (record l { semaphores = insert board_id n l.semaphores })
]

unfoldable pub release : SyncRateLimiter → String → SyncRateLimiter
unfolding slots
release l board_id = record l { semaphores = insert board_id (slots l board_id + 1) l.semaphores }

unfoldable pub can_sync_peer : ℕ → SyncRateLimiter → BoardPeer → Bool
can_sync_peer now l key = elim (lookup key l.backoff) [ none ↦ true | some next ↦ leb next now ]

unfoldable pub failure_count : SyncRateLimiter → BoardPeer → ℕ
failure_count l key = elim (lookup key l.failures) [ none ↦ 0 | some n ↦ n ]

-- The pause without its random part.
unfoldable pub pause : ℕ → ℕ
pause failures = min (seconds 5 * 2 ^ (failures - 1)) (seconds 300)

-- A time that is moved by a random part.
abbrev pub moved : ℕ → ℤ → ℕ
moved n (pos k) = n + k
moved n (negsuc k) = n - suc k

-- With the second component, whether the call raises OverflowError, as the conversion of 2 ** 1024 to a
-- floating-point number does.
unfoldable pub record_failure : ℕ → ℤ → SyncRateLimiter → BoardPeer → SyncRateLimiter × Bool
unfolding failure_count pause
record_failure now jitter l key =
    let failures = failure_count l key + 1 in
    let counted = record l { failures = insert key failures l.failures } in
    if leb 1025 failures then (counted, true) else (
      record counted { backoff = insert key (now + moved (pause failures) jitter) counted.backoff },
      false,
    )

unfoldable pub record_success : SyncRateLimiter → BoardPeer → SyncRateLimiter
record_success l key = record l { failures = erase key l.failures; backoff = erase key l.backoff }
