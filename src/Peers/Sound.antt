-- ===== src/Peers/Sound.antt =====
-- The single calls of `PeerTracker`, and its two tables.
use retiboard.Base.{
  text_key, ℕ, ◌<◌, ◌≡◌, refl, inl, inr, Option-cases, Bool-cases, if◌then◌else◌, arith, Bool, true,
  false, not, truthy, String, List, [], ◌∷◌, length, Option,
}
use retiboard.Base.Dict.{lookup}
use retiboard.Base.Sets.{contains, contains-add}
use retiboard.Peers.Info.{PeerInfo, max_peer_table_size, new_peer}
use retiboard.Peers.Tracker.{
  PeerTracker, enforce_limit, announced, store_identity, store_announce, register_from_announce,
  verified_by_message, store_message, see_peer, update, sweep_keys,
}
use retiboard.Peers.Keyed.{
  IsTable, enforce_limit-Room, put-IsTable, put_known-IsTable, erase-IsTable,
}
use retiboard.Peers.Listed.{
  belongs, IsListed, enforce_limit-IsListed, put-IsListed, put_filed-IsListed,
}

module _ {I : Type 0} where
  pub record IsSound (t : PeerTracker I) : Type 0 where
    pub table : IsTable t
    pub listed : IsListed t

  -- The two refusals that each registration starts with.
  abbrev refusing : (valid own : Bool) (t u : PeerTracker I) → PeerTracker I × Bool
  refusing valid own t u = if not valid then (t, false) else if own then (t, false) else (u, true)

  pub guarded :
      (valid own : Bool) (t u : PeerTracker I)
      → IsSound t
      → IsSound u
      → IsSound (refusing valid own t u).0
  guarded true true t u h k = h
  guarded true false t u h k = k
  guarded false own t u h k = h

  pub reindexed :
      (t : PeerTracker I) (index : _) → IsTable t → IsTable (record t { board_index = index })
  reindexed t index h = record { distinct = h.distinct; keyed = h.keyed; bounded = h.bounded }

  abbrev HasRoom : PeerTracker I → Type 0
  HasRoom t = length t.peers < max_peer_table_size

  pub made_room : (t : PeerTracker I) → IsSound t → IsSound (enforce_limit t)
  made_room t h = record {
    table = (enforce_limit-Room t h.table).0;
    listed = enforce_limit-IsListed t h.table h.listed;
  }

  pub store_identity-IsSound :
      (now : ℕ) (t : PeerTracker I) (hash : String) (identity : Option I) (announce_hash : String)
      → HasRoom t
      → IsSound t
      → IsSound (store_identity now t hash identity announce_hash)
  unfolding store_identity announced new_peer
  store_identity-IsSound now t hash identity announce_hash room h =
      elim (Option-cases (lookup hash t.peers)) [
        | inl e ↦
            rw (e, store_identity)
              record {
                table = put-IsTable t hash _ refl room h.table;
                listed =
                    put-IsListed t hash _ (λ b c. ground (arith, rw (e, belongs) at c)) h.listed;
              }
        | inr (p, e) ↦
            rw (e, store_identity)
              record {
                table = put_known-IsTable t hash p _ refl e h.table;
                listed = put-IsListed t hash _ (λ b c. rw (e, belongs) at c) h.listed;
              }
      ]

  store_announce-IsSound :
      (now : ℕ) (t : PeerTracker I) (board_id hash : String) (identity : Option I)
      (announce_hash : String)
      → HasRoom t
      → IsSound t
      → IsSound (store_announce now t board_id hash identity announce_hash)
  unfolding store_announce announced new_peer contains
  store_announce-IsSound now t board_id hash identity announce_hash room h =
      elim (Option-cases (lookup hash t.peers)) [
        | inl e ↦
            rw (e, store_announce)
              record {
                table = reindexed _ _ (put-IsTable t hash _ refl room h.table);
                listed =
                    put_filed-IsListed t hash board_id _
                      (λ b c. ground (arith, rw (e, belongs) at c)) (ground arith) h.listed;
              }
        | inr (p, e) ↦
            rw (e, store_announce)
              record {
                table = reindexed _ _ (put_known-IsTable t hash p _ refl e h.table);
                listed =
                    put_filed-IsListed t hash board_id _
                      (λ b c.
                        ground (arith, rw (e, belongs) at c, contains-add board_id b p.boards))
                      (ground (arith, contains-add board_id board_id p.boards)) h.listed;
              }
      ]

  pub store_message-IsSound :
      (now : ℕ) (t : PeerTracker I) (hash board_id : String) (identity : Option I)
      → HasRoom t
      → IsSound t
      → IsSound (store_message now t hash board_id identity)
  unfolding store_message verified_by_message new_peer contains
  store_message-IsSound now t hash board_id identity room h = elim (Bool-cases (truthy board_id)) [
    | inl filed ↦ elim (Option-cases (lookup hash t.peers)) [
      | inl e ↦
          rw (e, filed, store_message)
            record {
              table = reindexed _ _ (put-IsTable t hash _ refl room h.table);
              listed =
                  put_filed-IsListed t hash board_id _ (λ b c. ground (arith, rw (e, belongs) at c))
                    (ground (arith, contains-add board_id board_id [])) h.listed;
            }
      | inr (p, e) ↦
          rw (e, filed, store_message)
            record {
              table = reindexed _ _ (put_known-IsTable t hash p _ refl e h.table);
              listed =
                  put_filed-IsListed t hash board_id _
                    (λ b c. ground (arith, rw (e, belongs) at c, contains-add board_id b p.boards))
                    (ground (arith, contains-add board_id board_id p.boards)) h.listed;
            }
    ]
    | inr none_given ↦ elim (Option-cases (lookup hash t.peers)) [
      | inl e ↦
          rw (e, none_given, store_message)
            record {
              table = put-IsTable t hash _ refl room h.table;
              listed = put-IsListed t hash _ (λ b c. ground (arith, rw (e, belongs) at c)) h.listed;
            }
      | inr (p, e) ↦
          rw (e, none_given, store_message)
            record {
              table = put_known-IsTable t hash p _ refl e h.table;
              listed =
                  put-IsListed t hash _
                    (λ b c. ground (arith, rw (e, belongs) at c, contains-add board_id b p.boards))
                    h.listed;
            }
    ]
  ]

  pub register_from_announce-IsSound :
      (now : ℕ) (t : PeerTracker I) (board_id hash : String) (identity : Option I)
      (announce_hash : String)
      → IsSound t
      → IsSound (register_from_announce now t board_id hash identity announce_hash).0
  unfolding register_from_announce
  register_from_announce-IsSound now t board_id hash identity announce_hash h = guarded _ _ t _ h (
      store_announce-IsSound now (enforce_limit t) board_id hash identity announce_hash
        (enforce_limit-Room t h.table).1 (made_room t h))

  pub update-IsSound :
      (f : PeerInfo I → PeerInfo I) (t : PeerTracker I) (hash : String)
      → ((p : PeerInfo I) → (f p).lxmf_hash ≡ p.lxmf_hash)
      → ((p : PeerInfo I) → (f p).boards ≡ p.boards)
      → IsSound t
      → IsSound (update f t hash)
  unfolding update
  update-IsSound f t hash same_hash same_boards h = elim (Option-cases (lookup hash t.peers)) [
    | inl e ↦ rw (e, update) h
    | inr (p, e) ↦
        rw (e, update)
          record {
            table = put_known-IsTable t hash p (f p) (same_hash p) e h.table;
            listed =
                put-IsListed t hash (f p) (λ b c. rw (same_boards p) (rw (e, belongs) at c))
                  h.listed;
          }
  ]

  pub see_peer-IsSound :
      (now : ℕ) (t : PeerTracker I) (board_id hash : String) (identity : Option I)
      → IsSound t
      → IsSound (see_peer now t board_id hash identity)
  unfolding see_peer
  see_peer-IsSound now t board_id hash identity h = elim (Option-cases (lookup hash t.peers)) [
    | inl e ↦ rw (e, see_peer) (register_from_announce-IsSound now t board_id hash identity hash h)
    | inr (p, e) ↦
        rw (e, see_peer)
          record {
            table = put_known-IsTable t hash p _ refl e h.table;
            listed =
                put-IsListed t hash _
                  (λ b c. ground (arith, rw (e, belongs) at c, contains-add board_id b p.boards))
                  h.listed;
          }
  ]

  pub sweep_keys-IsTable :
      (ks : List String) (t : PeerTracker I) → IsTable t → IsTable (sweep_keys ks t)
  unfolding sweep_keys
  sweep_keys-IsTable [] t h = h
  sweep_keys-IsTable (k ∷ ks) t h = elim (Option-cases (lookup k t.peers)) [
    | inl e ↦ rw (e, sweep_keys) (sweep_keys-IsTable ks t h)
    | inr (p, e) ↦ rw (e, sweep_keys) (sweep_keys-IsTable ks _ (erase-IsTable t k _ h))
  ]
