-- ===== src/Tests/Neighbours.antt =====
-- One peer, with numbers for identities.
use retiboard.Base.{
  text_key, ◌<◌, All, text_discrete, ℕ, ◌≤◌, ◌≡◌, refl, arith, true, false, String, [], ◌∷◌, length,
  some,
}
use retiboard.Base.Dict.{IsDict, lookup, insert}
use retiboard.Peers.Info.{PeerInfo, is_valid_peer_hash, from_hex, new_peer, unknown}
use retiboard.Peers.Tracker.{PeerTracker, enforce_limit, store_announce, register_from_announce}
use retiboard.Peers.Keyed.{IsKeyed}
use retiboard.Peers.Listed.{lists, belongs}
use retiboard.Base.Sets.{add, contains}
use retiboard.Peers.Boards.{index_add}
use retiboard.Peers.Select.{get_fetch_peers}
use retiboard.Peers.Fetch.{is_usable, get_fetch_peers-Usable}
use retiboard.Peers.Reach.{Reach, init, next, heard_announce, Reach-Listed, Reach-Bounded}

abbrev hash : String
hash = "0123456789abcdef"

abbrev start : PeerTracker ℕ
start = record { peers = []; board_index = []; self_lxmf_hash = "" }

abbrev after_announce : PeerTracker ℕ
after_announce = (register_from_announce 7 start "board" hash (some 1) "").0

abbrev peer : PeerInfo ℕ
peer = new_peer 7 hash (some 1) ("board" ∷ []) unknown false ""

abbrev tracker : PeerTracker ℕ
tracker = record {
  peers = (hash, peer) ∷ [];
  board_index = ("board", hash ∷ []) ∷ [];
  self_lxmf_hash = "";
}

reached : Reach after_announce
reached = next init (heard_announce 7 "board" hash (some 1) "")

stored : lookup hash after_announce.peers ≡ some peer
unfolding lookup insert text_discrete register_from_announce is_valid_peer_hash from_hex
    enforce_limit store_announce index_add add new_peer
stored = refl

usable : is_usable after_announce "board" peer ≡ true
unfolding contains text_discrete new_peer register_from_announce is_valid_peer_hash lookup
    enforce_limit
usable = refl

get_fetch_peers-Usable_example :
    All
      (λ p. is_usable after_announce "board" p ≡ true)
      (get_fetch_peers 8 after_announce "board" 3)
    × (length (get_fetch_peers 8 after_announce "board" 3) ≤ 3)
    × (0 < length (get_fetch_peers 8 after_announce "board" 3))
get_fetch_peers-Usable_example =
    get_fetch_peers-Usable 8 after_announce "board" hash 3 peer reached stored usable (omega arith)

is_listed : lists after_announce "board" hash ≡ true
unfolding lookup insert text_discrete register_from_announce is_valid_peer_hash from_hex
    enforce_limit store_announce index_add add contains new_peer
is_listed = refl

Reach-Listed_example : belongs after_announce "board" hash ≡ true
Reach-Listed_example = Reach-Listed "board" hash reached is_listed

Reach-Bounded_example :
    (length after_announce.peers ≤ 200) × IsDict after_announce.peers × IsKeyed after_announce.peers
Reach-Bounded_example = Reach-Bounded reached
