-- ===== src/Peers/Keyed.antt =====
-- The keys of the table of peers, and its size.
use retiboard.Base.{
  text_key, suc, ◌≤◌, ◌<◌, ◌≡◌, refl, inl, inr, ltb, Bool-cases, arith, String, List, [], ◌∷◌,
  length, All, none, some,
}
use retiboard.Base.Dict.{
  Dict, lookup, insert, erase, values, IsDict, insert-IsDict, erase-IsDict, length-insert,
  length-erase,
}
use retiboard.Base.Sort.{sort_by, sort_by-All, length-sort_by}
use retiboard.Peers.Info.{PeerInfo, max_peer_table_size}
use retiboard.Peers.Tracker.{PeerTracker, evict, evicted_before, enforce_limit}

module _ {I : Type 0} where
  abbrev pub IsKeyed : Dict String (PeerInfo I) → Type 0
  IsKeyed [] = Unit
  IsKeyed ((k, p) ∷ d) = (p.lxmf_hash ≡ k) × IsKeyed d

  pub insert-IsKeyed :
      (k : String) (p : PeerInfo I) (d : Dict String (PeerInfo I))
      → p.lxmf_hash ≡ k
      → IsKeyed d
      → IsKeyed (insert k p d)
  unfolding insert
  insert-IsKeyed k p [] e h = (e, tt)
  insert-IsKeyed k p ((j, q) ∷ d) e h = ground (arith, insert-IsKeyed k p d e h.1)

  pub erase-IsKeyed : (k : String) (d : Dict String (PeerInfo I)) → IsKeyed d → IsKeyed (erase k d)
  unfolding erase
  erase-IsKeyed k [] h = tt
  erase-IsKeyed k ((j, q) ∷ d) h = ground (arith, erase-IsKeyed k d h.1)

  pub lookup-IsKeyed :
      (k : String) (p : PeerInfo I) (d : Dict String (PeerInfo I))
      → IsKeyed d
      → lookup k d ≡ some p
      → p.lxmf_hash ≡ k
  unfolding lookup
  lookup-IsKeyed k p [] h e = ground arith
  lookup-IsKeyed k p ((j, q) ∷ d) h e = ground (arith, lookup-IsKeyed k p d h.1)

  abbrev pub Stands : Dict String (PeerInfo I) → PeerInfo I → Type 0
  Stands d p = lookup p.lxmf_hash d ≡ some p

  -- One more entry in front, under a key that the others do not have.
  Stands-cons :
      (k : String) (q : PeerInfo I) (d : Dict String (PeerInfo I)) (ps : List (PeerInfo I))
      → lookup k d ≡ none
      → All (Stands d) ps
      → All (Stands ((k, q) ∷ d)) ps
  unfolding lookup
  Stands-cons k q d [] new h = tt
  Stands-cons k q d (p ∷ ps) new h = (ground arith, Stands-cons k q d ps new h.1)

  values-Stands : (d : Dict String (PeerInfo I)) → IsDict d → IsKeyed d → All (Stands d) (values d)
  unfolding lookup
  values-Stands [] h keyed = tt
  values-Stands ((k, p) ∷ d) h keyed =
      (ground arith, Stands-cons k p d (values d) h.0 (values-Stands d h.1 keyed.1))

  length-values : (d : Dict String (PeerInfo I)) → length (values d) ≡ length d
  length-values [] = refl
  length-values (e ∷ d) = omega (arith, length-values d)

  pub record IsTable (t : PeerTracker I) : Type 0 where
    pub distinct : IsDict t.peers
    pub keyed : IsKeyed t.peers
    pub bounded : length t.peers ≤ max_peer_table_size

  -- The peers from which the eviction chooses stand in the table.
  pub victims-Stands :
      (t : PeerTracker I)
      → IsTable t
      → All (Stands t.peers) (sort_by evicted_before (values t.peers))
  victims-Stands t h =
      sort_by-All evicted_before (Stands t.peers) (values t.peers)
        (values-Stands t.peers h.distinct h.keyed)

  pub erase-IsTable :
      (t : PeerTracker I) (k : String) (index : Dict String (List String))
      → IsTable t
      → IsTable (record t { peers = erase k t.peers; board_index = index })
  erase-IsTable t k index h = record {
    distinct = erase-IsDict k t.peers h.distinct;
    keyed = erase-IsKeyed k t.peers h.keyed;
    bounded = omega (arith, h.bounded, length-erase k t.peers h.distinct);
  }

  evict-Room :
      (t : PeerTracker I) (victims : List (PeerInfo I))
      → IsTable t
      → All (Stands t.peers) victims
      → length victims ≡ length t.peers
      → 0 < length t.peers
      → IsTable (evict t victims) × (suc (length (evict t victims).peers) ≡ length t.peers)
  unfolding evict
  evict-Room t [] h all n some_peer = absurd (omega arith)
  evict-Room t (victim ∷ rest) h all n some_peer = (
    erase-IsTable t _ _ h,
    omega (arith, rw all.0 at (length-erase victim.lxmf_hash t.peers h.distinct)),
  )

  -- After `_enforce_limit` there is room for one more peer.
  pub enforce_limit-Room :
      (t : PeerTracker I)
      → IsTable t
      → IsTable (enforce_limit t) × (length (enforce_limit t).peers < max_peer_table_size)
  unfolding enforce_limit
  enforce_limit-Room t h = elim (Bool-cases (ltb (length t.peers) max_peer_table_size)) [
    | inl e ↦ rw e (h, ground arith)
    | inr e ↦
        let victims : List (PeerInfo I) = sort_by evicted_before (values t.peers) in
        let room =
          evict-Room t victims h (victims-Stands t h)
            (omega (arith, length-sort_by evicted_before (values t.peers), length-values t.peers))
            (ground arith) in
        rw e (room.0, ground (arith, h.bounded, room.1))
  ]

  -- A write under its own hash, where there is room or the peer is there already.
  pub put-IsTable :
      (t : PeerTracker I) (k : String) (p : PeerInfo I)
      → p.lxmf_hash ≡ k
      → length t.peers < max_peer_table_size
      → IsTable t
      → IsTable (record t { peers = insert k p t.peers })
  put-IsTable t k p e room h = record {
    distinct = insert-IsDict k p t.peers h.distinct;
    keyed = insert-IsKeyed k p t.peers e h.keyed;
    bounded = omega (arith, room, length-insert k p t.peers);
  }

  pub put_known-IsTable :
      (t : PeerTracker I) (k : String) (p q : PeerInfo I)
      → q.lxmf_hash ≡ p.lxmf_hash
      → lookup k t.peers ≡ some p
      → IsTable t
      → IsTable (record t { peers = insert k q t.peers })
  put_known-IsTable t k p q e known h = record {
    distinct = insert-IsDict k q t.peers h.distinct;
    keyed = insert-IsKeyed k q t.peers (rw e (lookup-IsKeyed k p t.peers h.keyed known)) h.keyed;
    bounded = omega (arith, h.bounded, rw known at (length-insert k q t.peers));
  }
