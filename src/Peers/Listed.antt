-- ===== src/Peers/Listed.antt =====
-- The index from boards to peers, against the records of the peers.
use retiboard.Base.{
  text_key, ◌≡◌, refl, inl, inr, ltb, Bool-cases, Option-cases, if◌then◌else◌, arith, Bool, true,
  false, ◌&&◌, String, same, List, [], ◌∷◌, length, All, none, some,
}
use retiboard.Base.Dict.{Dict, lookup, insert, erase, values, lookup-insert, lookup-erase}
use retiboard.Base.Sets.{contains, add, discard, contains-add, contains-discard}
use retiboard.Base.Sort.{sort_by}
use retiboard.Peers.Info.{PeerInfo, max_peer_table_size}
use retiboard.Peers.Boards.{
  members, index_add, index_discard, index_discard_all, index_remove, index_remove_all,
}
use retiboard.Peers.Tracker.{PeerTracker, evict, evicted_before, enforce_limit, sweep_keys}
use retiboard.Peers.Keyed.{IsTable, Stands, victims-Stands}

pub members-index_add :
    (hash board_id : String) (index : Dict String (List String)) (h b : String)
    → contains h (members (index_add hash board_id index) b)
      ≡ (if same board_id b && same hash h then true else contains h (members index b))
unfolding index_add
members-index_add hash board_id index h b = ground (
  arith,
  lookup-insert board_id b (add hash (members index board_id)) index,
  contains-add hash h (members index board_id),
)

members-index_discard :
    (hash board_id : String) (index : Dict String (List String)) (h b : String)
    → contains h (members (index_discard hash board_id index) b)
      ≡ (if same board_id b && same hash h then false else contains h (members index b))
unfolding index_discard contains
members-index_discard hash board_id index h b = ground (
  arith,
  lookup-insert board_id b (discard hash (members index board_id)) index,
  contains-discard hash h (members index board_id),
)

-- Every board of the peer loses it, and nothing else changes.
members-index_discard_all :
    (hash : String) (boards : List String) (index : Dict String (List String)) (h b : String)
    → contains h (members (index_discard_all hash boards index) b)
      ≡ (if contains b boards && same hash h then false else contains h (members index b))
unfolding index_discard_all contains
members-index_discard_all hash [] index h b = refl
members-index_discard_all hash (board_id ∷ boards) index h b = ground (
  arith,
  members-index_discard_all hash boards (index_discard hash board_id index) h b,
  members-index_discard hash board_id index h b,
)

empty_lists_none : (h : String) (set : List String) → length set ≡ 0 → contains h set ≡ false
unfolding contains
empty_lists_none h [] e = refl
empty_lists_none h (x ∷ set) e = ground arith

members-index_remove :
    (hash board_id : String) (index : Dict String (List String)) (h b : String)
    → contains h (members (index_remove hash board_id index) b)
      ≡ (if same board_id b && same hash h then false else contains h (members index b))
unfolding index_remove contains
members-index_remove hash board_id index h b = ground (
  arith,
  lookup-insert board_id b (discard hash (members index board_id)) index,
  lookup-erase board_id b index,
  contains-discard hash h (members index board_id),
  empty_lists_none h (discard hash (members index board_id)),
)

members-index_remove_all :
    (hash : String) (boards : List String) (index : Dict String (List String)) (h b : String)
    → contains h (members (index_remove_all hash boards index) b)
      ≡ (if contains b boards && same hash h then false else contains h (members index b))
unfolding index_remove_all contains
members-index_remove_all hash [] index h b = refl
members-index_remove_all hash (board_id ∷ boards) index h b = ground (
  arith,
  members-index_remove_all hash boards (index_remove hash board_id index) h b,
  members-index_remove hash board_id index h b,
)

module _ {I : Type 0} where
  -- Whether the index of a board lists a peer, and whether the peer's own record has the board.
  abbrev pub lists : PeerTracker I → String → String → Bool
  lists t board_id hash = contains hash (members t.board_index board_id)

  abbrev pub belongs : PeerTracker I → String → String → Bool
  belongs t board_id hash = elim (lookup hash t.peers) [
    | none ↦ false
    | some p ↦ contains board_id p.boards
  ]

  abbrev pub IsListed : PeerTracker I → Type 0
  IsListed t =
      (board_id hash : String) → lists t board_id hash ≡ true → belongs t board_id hash ≡ true

  evict-IsListed :
      (t : PeerTracker I) (victims : List (PeerInfo I))
      → All (Stands t.peers) victims
      → IsListed t
      → IsListed (evict t victims)
  unfolding evict
  evict-IsListed t [] all h b k e = h b k e
  evict-IsListed t (victim ∷ rest) all h b k e = ground (
    arith,
    all.0,
    h b k,
    members-index_discard_all victim.lxmf_hash victim.boards t.board_index k b,
    lookup-erase victim.lxmf_hash k t.peers,
  )

  pub enforce_limit-IsListed :
      (t : PeerTracker I) → IsTable t → IsListed t → IsListed (enforce_limit t)
  unfolding enforce_limit
  enforce_limit-IsListed t table h = elim (Bool-cases (ltb (length t.peers) max_peer_table_size)) [
    | inl e ↦ rw e h
    | inr e ↦
        rw e (evict-IsListed t (sort_by evicted_before (values t.peers)) (victims-Stands t table) h)
  ]

  -- A peer is written that keeps the boards it had.
  pub put-IsListed :
      (t : PeerTracker I) (k : String) (p : PeerInfo I)
      → ((b : String) → belongs t b k ≡ true → contains b p.boards ≡ true)
      → IsListed t
      → IsListed (record t { peers = insert k p t.peers })
  put-IsListed t k p kept h b j e = ground (arith, h b j e, kept b, lookup-insert k j p t.peers)

  pub put_filed-IsListed :
      (t : PeerTracker I) (k board_id : String) (p : PeerInfo I)
      → ((b : String) → belongs t b k ≡ true → contains b p.boards ≡ true)
      → contains board_id p.boards ≡ true
      → IsListed t
      → IsListed (record t {
        peers = insert k p t.peers;
        board_index = index_add k board_id t.board_index;
      })
  put_filed-IsListed t k board_id p kept own h b j e = ground (
    arith,
    h b j,
    kept b,
    lookup-insert k j p t.peers,
    members-index_add k board_id t.board_index j b,
  )

  sweep_key-IsListed :
      (t : PeerTracker I) (k : String) (p : PeerInfo I)
      → lookup k t.peers ≡ some p
      → IsListed t
      → IsListed (record t {
        peers = erase k t.peers;
        board_index = index_remove_all k p.boards t.board_index;
      })
  sweep_key-IsListed t k p known h b j e = ground (
    arith,
    h b j,
    members-index_remove_all k p.boards t.board_index j b,
    lookup-erase k j t.peers,
  )

  pub sweep_keys-IsListed :
      (ks : List String) (t : PeerTracker I) → IsListed t → IsListed (sweep_keys ks t)
  unfolding sweep_keys
  sweep_keys-IsListed [] t h = h
  sweep_keys-IsListed (k ∷ ks) t h = elim (Option-cases (lookup k t.peers)) [
    | inl e ↦ rw (e, sweep_keys) (sweep_keys-IsListed ks t h)
    | inr (p, e) ↦ rw (e, sweep_keys) (sweep_keys-IsListed ks _ (sweep_key-IsListed t k p e h))
  ]
