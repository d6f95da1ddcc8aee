-- ===== src/Peers/Reach.antt =====
-- Sequences of calls of `PeerTracker`.
use retiboard.Base.{List, ◌+◌, text_key, ℕ, ◌≤◌, ◌≡◌, refl, arith, true, String, [], length, Option}
use retiboard.Base.Dict.{lookup, IsDict}
use retiboard.Base.Sets.{contains}
use retiboard.Peers.Info.{PeerInfo}
use retiboard.Peers.Tracker.{
  PeerTracker, set_self_hash, enforce_limit, register_peer_identity, register_from_announce,
  register_from_message, see_peer, mark_direct_have_sent, failed, record_delivery_failure,
  succeeded, record_delivery_success, mark_path_known, expired_keys, sweep_expired,
}
use retiboard.Peers.Keyed.{IsKeyed, enforce_limit-Room}
use retiboard.Peers.Listed.{lists, belongs, sweep_keys-IsListed}
use retiboard.Peers.Load.{load, load-IsSound}
use retiboard.Peers.Sound.{
  IsSound, guarded, made_room, store_identity-IsSound, store_message-IsSound,
  register_from_announce-IsSound, update-IsSound, see_peer-IsSound, sweep_keys-IsTable,
}

-- One call of a method that changes the tables, each under the lock. A file that is loaded has its
-- entries under their own hashes, and no more of them than there is room for.
pub data Step {I : Type 0} (t : PeerTracker I) : PeerTracker I → Type 0 where
  knows_self : (hash : String) → Step t (set_self_hash t hash)
  told_identity :
      (now : ℕ) (hash : String) (identity : Option I) (announce_hash : String)
      → Step t (register_peer_identity now t hash identity announce_hash).0
  heard_announce :
      (now : ℕ) (board_id hash : String) (identity : Option I) (announce_hash : String)
      → Step t (register_from_announce now t board_id hash identity announce_hash).0
  heard_message :
      (now : ℕ) (hash board_id : String) (identity : Option I)
      → Step t (register_from_message now t hash board_id identity).0
  sees :
      (now : ℕ) (board_id hash : String) (identity : Option I)
      → Step t (see_peer now t board_id hash identity)
  asked : (now : ℕ) (hash : String) → Step t (mark_direct_have_sent now t hash)
  fails : (now jitter : ℕ) (hash : String) → Step t (record_delivery_failure now jitter t hash)
  succeeds : (now : ℕ) (hash : String) → Step t (record_delivery_success now t hash)
  found_path : (now : ℕ) (hash : String) → Step t (mark_path_known now t hash)
  sweeps : (now : ℕ) → Step t (sweep_expired now t)
  loads :
      (entries : List (String × PeerInfo I))
      → IsKeyed entries
      → length t.peers + length entries ≤ 200
      → Step t (load t entries).0

pub data Reach {I : Type 0} : PeerTracker I → Type 0 where
  init : Reach (record { peers = []; board_index = []; self_lxmf_hash = "" })
  next : {t u : PeerTracker I} → Reach t → Step t u → Reach u

module _ {I : Type 0} where
  failed-boards : (now jitter : ℕ) (p : PeerInfo I) → (failed now jitter p).boards ≡ p.boards
  unfolding failed
  failed-boards now jitter p = ground arith

  failed-hash : (now jitter : ℕ) (p : PeerInfo I) → (failed now jitter p).lxmf_hash ≡ p.lxmf_hash
  unfolding failed
  failed-hash now jitter p = ground arith

  Step-IsSound : {t u : PeerTracker I} → Step t u → IsSound t → IsSound u
  unfolding set_self_hash register_peer_identity register_from_message mark_direct_have_sent
      record_delivery_failure record_delivery_success succeeded mark_path_known sweep_expired
  Step-IsSound {t} (knows_self hash) h = record {
    table = record {
      distinct = h.table.distinct;
      keyed = h.table.keyed;
      bounded = h.table.bounded;
    };
    listed = h.listed;
  }
  Step-IsSound {t} (told_identity now hash identity announce_hash) h = guarded _ _ t _ h (
      store_identity-IsSound now (enforce_limit t) hash identity announce_hash
        (enforce_limit-Room t h.table).1 (made_room t h))
  Step-IsSound {t} (heard_announce now board_id hash identity announce_hash) h =
      register_from_announce-IsSound now t board_id hash identity announce_hash h
  Step-IsSound {t} (heard_message now hash board_id identity) h = guarded _ _ t _ h (
      store_message-IsSound now (enforce_limit t) hash board_id identity
        (enforce_limit-Room t h.table).1 (made_room t h))
  Step-IsSound {t} (sees now board_id hash identity) h =
      see_peer-IsSound now t board_id hash identity h
  Step-IsSound {t} (asked now hash) h = update-IsSound _ t hash (λ p. refl) (λ p. refl) h
  Step-IsSound {t} (fails now jitter hash) h =
      update-IsSound (failed now jitter) t hash (failed-hash now jitter) (failed-boards now jitter)
        h
  Step-IsSound {t} (succeeds now hash) h = update-IsSound _ t hash (λ p. refl) (λ p. refl) h
  Step-IsSound {t} (found_path now hash) h = update-IsSound _ t hash (λ p. refl) (λ p. refl) h
  Step-IsSound {t} (sweeps now) h = record {
    table = sweep_keys-IsTable (expired_keys now t.peers) t h.table;
    listed = sweep_keys-IsListed (expired_keys now t.peers) t h.listed;
  }
  Step-IsSound {t} (loads entries keyed room) h = load-IsSound t entries keyed room h

  Reach-IsSound : {t : PeerTracker I} → Reach t → IsSound t
  unfolding lookup contains
  Reach-IsSound init = record {
    table = record { distinct = tt; keyed = tt; bounded = ground arith };
    listed = λ board_id hash e. absurd (ground arith);
  }
  Reach-IsSound (next reach step) = Step-IsSound step (Reach-IsSound reach)

-- After any sequence of calls, with loads from disk only of entries that have room and stand under
-- their own hashes, a peer that the index of a board lists is in the table, with that board among its
-- own: no list names a peer that is gone.
pub Reach-Listed :
    {I : Type 0} {t : PeerTracker I} (board_id hash : String)
    → Reach t
    → lists t board_id hash ≡ true
    → belongs t board_id hash ≡ true
Reach-Listed board_id hash reach listed = (Reach-IsSound reach).listed board_id hash listed

-- After any sequence of calls, with loads from disk only of entries that have room and stand under
-- their own hashes, at most 200 peers are in the table, no two of them under one key, and each under
-- its own hash.
pub Reach-Bounded :
    {I : Type 0} {t : PeerTracker I}
    → Reach t
    → (length t.peers ≤ 200) × IsDict t.peers × IsKeyed t.peers
Reach-Bounded reach =
    let sound = Reach-IsSound reach in
    (sound.table.bounded, sound.table.distinct, sound.table.keyed)
