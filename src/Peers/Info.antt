-- ===== src/Peers/Info.antt =====
-- The constants and `PeerInfo` of peers.py. An RNS identity is a value of a type that is a parameter;
-- only whether there is one matters. What `random` draws is an argument.
use retiboard.Base.{
  codes, ℕ, ◌+◌, ◌-◌, ◌*◌, ◌^◌, min, ltb, leb, ◌==◌, if◌then◌else◌, Bool, true, ◌&&◌, ◌||◌, String,
  List, [], ◌∷◌, length, Option,
}
use retiboard.Base.Time.{seconds}

pub data PathState : Type 0 where
  unknown requested known stale unreachable : PathState

abbrev pub path_request_timeout : ℕ
path_request_timeout = seconds 30

abbrev pub max_path_retries : ℕ
max_path_retries = 5

abbrev pub retry_backoff_max : ℕ
retry_backoff_max = seconds 600

abbrev pub peer_unreachable_ttl : ℕ
peer_unreachable_ttl = seconds 3600

abbrev pub peer_expiry_seconds : ℕ
peer_expiry_seconds = seconds 900

abbrev pub max_peer_table_size : ℕ
max_peer_table_size = 200

pub record PeerInfo (I : Type 0) : Type 0 where
  pub lxmf_hash : String
  pub identity : Option I
  pub boards : List String
  pub last_seen : ℕ
  pub path_state : PathState
  pub verified : Bool
  pub announce_hash : String
  pub retry_count : ℕ
  pub next_retry_at : ℕ
  pub delivery_successes : ℕ
  pub delivery_failures : ℕ
  pub last_success_at : ℕ
  pub last_failure_at : ℕ
  pub last_direct_have_at : ℕ

module _ {I : Type 0} where
  -- The constructor with its defaults.
  unfoldable pub new_peer :
      ℕ → String → Option I → List String → PathState → Bool → String → PeerInfo I
  new_peer now hash identity boards path_state verified announce_hash = record {
    lxmf_hash = hash;
    identity = identity;
    boards = boards;
    last_seen = now;
    path_state = path_state;
    verified = verified;
    announce_hash = announce_hash;
    retry_count = 0;
    next_retry_at = 0;
    delivery_successes = 0;
    delivery_failures = 0;
    last_success_at = 0;
    last_failure_at = 0;
    last_direct_have_at = 0;
  }

  abbrev pub touch : ℕ → PeerInfo I → PeerInfo I
  touch now p = record p { last_seen = now }

  abbrev pub is_expired : ℕ → PeerInfo I → Bool
  is_expired now p = ltb peer_expiry_seconds (now - p.last_seen)

-- The delay without the random part.
unfoldable pub base_delay : ℕ → ℕ
base_delay retry_count = min (path_request_timeout * 2 ^ retry_count) retry_backoff_max

-- `jitter` is what `random.uniform(0, delay * 0.25)` returns.
unfoldable pub next_retry_delay : ℕ → ℕ → ℕ
unfolding base_delay
next_retry_delay retry_count jitter = base_delay retry_count + jitter

abbrev is_hex : ℕ → Bool
is_hex c = (leb b'0' c && leb c b'9') || (leb b'a' c && leb c b'f') || (leb b'A' c && leb c b'F')

abbrev is_space : ℕ → Bool
is_space c = (leb 9 c && leb c 13) || c == 32

-- Whether `bytes.fromhex` reads a text: pairs of digits, with white space between the pairs.
unfoldable pub from_hex : List ℕ → Bool
from_hex [] = true
from_hex (c ∷ []) = is_space c
from_hex (c ∷ d ∷ r) = if is_space c then from_hex (d ∷ r) else is_hex c && is_hex d && from_hex r

-- Of a value that is a text; any other value is refused.
unfoldable pub is_valid_peer_hash : String → Bool
unfolding from_hex
is_valid_peer_hash hash =
    let digits = codes hash in (length digits == 16 || length digits == 32) && from_hex digits
