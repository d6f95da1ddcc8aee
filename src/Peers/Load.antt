-- ===== src/Peers/Load.antt =====
-- `load` of `PeerTracker`: the locked part, over the entries that the file has. What `from_dict` makes of
-- an entry is an argument.
use retiboard.Base.{
  text_key, ℕ, suc, ◌+◌, ◌≤◌, ◌≡◌, refl, inl, inr, arith, if◌then◌else◌, Bool-cases, Option-cases,
  true, false, ◌&&◌, String, same, List, [], ◌∷◌, length, none, some,
}
use retiboard.Base.Dict.{Dict, lookup, insert, lookup-insert, length-insert-le}
use retiboard.Base.Sets.{contains}
use retiboard.Peers.Info.{PeerInfo}
use retiboard.Peers.Boards.{members, index_add}
use retiboard.Peers.Tracker.{PeerTracker, is_self}
use retiboard.Peers.Keyed.{IsKeyed, put-IsTable}
use retiboard.Peers.Listed.{members-index_add}
use retiboard.Peers.Sound.{IsSound, reindexed}

unfoldable pub index_add_all :
    String → List String → Dict String (List String) → Dict String (List String)
index_add_all hash [] index = index
index_add_all hash (b ∷ bs) index = index_add_all hash bs (index_add hash b index)

members-index_add_all :
    (hash : String) (boards : List String) (index : Dict String (List String)) (h b : String)
    → contains h (members (index_add_all hash boards index) b)
      ≡ (if contains b boards && same hash h then true else contains h (members index b))
unfolding index_add_all contains
members-index_add_all hash [] index h b = refl
members-index_add_all hash (board_id ∷ boards) index h b = ground (
  arith,
  members-index_add_all hash boards (index_add hash board_id index) h b,
  members-index_add hash board_id index h b,
)

module _ {I : Type 0} where
  unfoldable pub store_loaded : PeerTracker I → String → PeerInfo I → PeerTracker I
  unfolding index_add_all
  store_loaded t h p = record t {
    peers = insert h p t.peers;
    board_index = index_add_all h p.boards t.board_index;
  }

  -- The loop, with the number of the peers that it adds.
  unfoldable pub load : PeerTracker I → List (String × PeerInfo I) → PeerTracker I × ℕ
  unfolding store_loaded
  load t [] = (t, 0)
  load t ((h, p) ∷ entries) = elim (is_self t h) [
    | true ↦ load t entries
    | false ↦ elim (lookup h t.peers) [
      | some known ↦ load t entries
      | none ↦ let (u, count) = load (store_loaded t h p) entries in (u, count + 1)
    ]
  ]

  store_loaded-IsSound :
      (t : PeerTracker I) (h : String) (p : PeerInfo I)
      → p.lxmf_hash ≡ h
      → lookup h t.peers ≡ none
      → suc (length t.peers) ≤ 200
      → IsSound t
      → IsSound (store_loaded t h p)
  unfolding store_loaded
  store_loaded-IsSound t h p own new room s = record {
    table = reindexed _ _ (put-IsTable t h p own (omega (arith, room)) s.table);
    listed = λ b j e. ground (
      arith,
      s.listed b j,
      lookup-insert h j p t.peers,
      members-index_add_all h p.boards t.board_index j b,
    );
  }

  pub load-IsSound :
      (t : PeerTracker I) (entries : List (String × PeerInfo I))
      → IsKeyed entries
      → length t.peers + length entries ≤ 200
      → IsSound t
      → IsSound (load t entries).0
  unfolding load
  load-IsSound t [] keyed room s = s
  load-IsSound t ((h, p) ∷ entries) keyed room s = elim (Bool-cases (is_self t h)) [
    | inl e ↦ rw (e, load) (load-IsSound t entries keyed.1 (omega (arith, room)) s)
    | inr e ↦ elim (Option-cases (lookup h t.peers)) [
      | inr (known, f) ↦ rw (e, load, f) (load-IsSound t entries keyed.1 (omega (arith, room)) s)
      | inl f ↦
          rw (e, load, f)
            (load-IsSound (store_loaded t h p) entries keyed.1
              (omega (arith, room, length-insert-le h p t.peers))
              (store_loaded-IsSound t h p keyed.0 f (omega (arith, room)) s))
    ]
  ]
