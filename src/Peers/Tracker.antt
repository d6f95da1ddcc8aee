-- ===== src/Peers/Tracker.antt =====
-- `PeerTracker`: the calls that change its tables, each one step under the lock.
use retiboard.Base.{
  text_key, ℕ, ◌+◌, ltb, leb, if◌then◌else◌, Bool, true, false, not, ◌&&◌, ◌||◌, String, same,
  truthy, List, [], ◌∷◌, length, Option, none, some,
}
use retiboard.Base.Dict.{Dict, lookup, insert, erase, values}
use retiboard.Base.Sets.{add}
use retiboard.Base.Sort.{sort_by}
use retiboard.Peers.Boards.{index_add, index_discard_all, index_remove_all}
use retiboard.Peers.Info.{
  unknown, known, stale, unreachable, PeerInfo, new_peer, is_expired, next_retry_delay,
  is_valid_peer_hash, max_path_retries, peer_unreachable_ttl, max_peer_table_size,
}

pub record PeerTracker (I : Type 0) : Type 0 where
  pub peers : Dict String (PeerInfo I)
  pub board_index : Dict String (List String)
  pub self_lxmf_hash : String

abbrev pub or_old {ℓ} : {A : Type ℓ} → Option A → Option A → Option A
or_old (some a) old = some a
or_old none old = old

abbrev pub text_or_old : String → String → String
text_or_old new old = if truthy new then new else old

-- An absent board is the empty text.
abbrev pub with_board : String → List String → List String
with_board board_id boards = if truthy board_id then add board_id boards else boards

module _ {I : Type 0} where
  unfoldable pub set_self_hash : PeerTracker I → String → PeerTracker I
  set_self_hash t hash = record t { self_lxmf_hash = hash }

  abbrev pub is_self : PeerTracker I → String → Bool
  is_self t hash = truthy hash && same hash t.self_lxmf_hash

  -- The order by `(p.verified, p.last_seen)`.
  abbrev pub evicted_before : PeerInfo I → PeerInfo I → Bool
  evicted_before p q =
      if p.verified
      then q.verified && ltb p.last_seen q.last_seen
      else q.verified || ltb p.last_seen q.last_seen

  unfoldable pub evict : PeerTracker I → List (PeerInfo I) → PeerTracker I
  unfolding index_discard_all
  evict t [] = t
  evict t (victim ∷ rest) = record t {
    peers = erase victim.lxmf_hash t.peers;
    board_index = index_discard_all victim.lxmf_hash victim.boards t.board_index;
  }

  unfoldable pub enforce_limit : PeerTracker I → PeerTracker I
  unfolding evict
  enforce_limit t =
      if ltb (length t.peers) max_peer_table_size
      then t
      else evict t (sort_by evicted_before (values t.peers))

  -- A peer that is seen again in an announce.
  unfoldable pub announced : ℕ → PeerInfo I → List String → Option I → String → PeerInfo I
  announced now p boards identity announce_hash = record p {
    last_seen = now;
    boards = boards;
    identity = or_old identity p.identity;
    announce_hash = text_or_old announce_hash p.announce_hash;
  }

  abbrev pub put : PeerTracker I → String → PeerInfo I → PeerTracker I
  put t hash p = record t { peers = insert hash p t.peers }

  unfoldable pub store_identity : ℕ → PeerTracker I → String → Option I → String → PeerTracker I
  unfolding announced
  store_identity now t hash identity announce_hash = elim (lookup hash t.peers) [
    | some p ↦ put t hash (announced now p p.boards identity announce_hash)
    | none ↦ put t hash (new_peer now hash identity [] unknown false announce_hash)
  ]

  unfoldable pub register_peer_identity :
      ℕ → PeerTracker I → String → Option I → String → PeerTracker I × Bool
  unfolding store_identity
  register_peer_identity now t hash identity announce_hash =
      if not (is_valid_peer_hash hash)
      then (t, false)
      else if is_self t hash
      then (t, false)
      else (store_identity now (enforce_limit t) hash identity announce_hash, true)

  unfoldable pub store_announce :
      ℕ → PeerTracker I → (board_id hash : String) → Option I → String → PeerTracker I
  unfolding announced index_add
  store_announce now t board_id hash identity announce_hash =
      let stored : PeerTracker I = elim (lookup hash t.peers) [
        | some p ↦ put t hash (announced now p (add board_id p.boards) identity announce_hash)
        | none ↦ put t hash (new_peer now hash identity (board_id ∷ []) unknown false announce_hash)
      ] in
      record stored { board_index = index_add hash board_id stored.board_index }

  unfoldable pub register_from_announce :
      ℕ → PeerTracker I → (board_id hash : String) → Option I → String → PeerTracker I × Bool
  unfolding store_announce
  register_from_announce now t board_id hash identity announce_hash =
      if not (is_valid_peer_hash hash)
      then (t, false)
      else if is_self t hash
      then (t, false)
      else (store_announce now (enforce_limit t) board_id hash identity announce_hash, true)

  unfoldable pub verified_by_message : ℕ → PeerInfo I → String → Option I → PeerInfo I
  verified_by_message now p board_id identity = record p {
    last_seen = now;
    verified = true;
    path_state = known;
    retry_count = 0;
    identity = or_old identity p.identity;
    boards = with_board board_id p.boards;
  }

  unfoldable pub store_message :
      ℕ → PeerTracker I → (hash board_id : String) → Option I → PeerTracker I
  unfolding verified_by_message index_add
  store_message now t hash board_id identity =
      let stored : PeerTracker I = elim (lookup hash t.peers) [
        | some p ↦ put t hash (verified_by_message now p board_id identity)
        | none ↦ put t hash (new_peer now hash identity (with_board board_id []) known true "")
      ] in
      if truthy board_id
      then record stored { board_index = index_add hash board_id stored.board_index }
      else stored

  unfoldable pub register_from_message :
      ℕ → PeerTracker I → (hash board_id : String) → Option I → PeerTracker I × Bool
  unfolding store_message
  register_from_message now t hash board_id identity =
      if not (is_valid_peer_hash hash)
      then (t, false)
      else if is_self t hash
      then (t, false)
      else (store_message now (enforce_limit t) hash board_id identity, true)

  -- `hash` is the destination hash in hexadecimal.
  unfoldable pub see_peer : ℕ → PeerTracker I → (board_id hash : String) → Option I → PeerTracker I
  see_peer now t board_id hash identity = elim (lookup hash t.peers) [
    | some p ↦ put t hash (record p { last_seen = now; boards = add board_id p.boards })
    | none ↦ (register_from_announce now t board_id hash identity hash).0
  ]

  -- A change of one peer, if it is there.
  unfoldable pub update : (PeerInfo I → PeerInfo I) → PeerTracker I → String → PeerTracker I
  update f t hash = elim (lookup hash t.peers) [ none ↦ t | some p ↦ put t hash (f p) ]

  unfoldable pub mark_direct_have_sent : ℕ → PeerTracker I → String → PeerTracker I
  unfolding update
  mark_direct_have_sent now = update (λ p. record p { last_direct_have_at = now })

  unfoldable pub failed : ℕ → ℕ → PeerInfo I → PeerInfo I
  failed now jitter p =
      let retry_count = p.retry_count + 1 in
      let counted = record p {
        retry_count = retry_count;
        delivery_failures = p.delivery_failures + 1;
        last_failure_at = now;
      } in
      if leb max_path_retries retry_count
      then record counted { path_state = unreachable; next_retry_at = now + peer_unreachable_ttl }
      else record counted {
        path_state = stale;
        next_retry_at = now + next_retry_delay retry_count jitter;
      }

  unfoldable pub record_delivery_failure : ℕ → ℕ → PeerTracker I → String → PeerTracker I
  unfolding update failed
  record_delivery_failure now jitter = update (failed now jitter)

  unfoldable pub succeeded : ℕ → PeerInfo I → PeerInfo I
  succeeded now p = record p {
    path_state = known;
    retry_count = 0;
    verified = true;
    delivery_successes = p.delivery_successes + 1;
    last_success_at = now;
    last_seen = now;
  }

  unfoldable pub record_delivery_success : ℕ → PeerTracker I → String → PeerTracker I
  unfolding update succeeded
  record_delivery_success now = update (succeeded now)

  unfoldable pub mark_path_known : ℕ → PeerTracker I → String → PeerTracker I
  unfolding update
  mark_path_known now =
      update (λ p. record p { path_state = known; retry_count = 0; last_seen = now })

  -- The loop of `sweep_expired` over the keys that were expired at its start.
  unfoldable pub sweep_keys : List String → PeerTracker I → PeerTracker I
  unfolding index_remove_all
  sweep_keys [] t = t
  sweep_keys (h ∷ hs) t = sweep_keys hs (elim (lookup h t.peers) [
    | none ↦ t
    | some p ↦ record t {
      peers = erase h t.peers;
      board_index = index_remove_all h p.boards t.board_index;
    }
  ])

  unfoldable pub expired_keys : ℕ → Dict String (PeerInfo I) → List String
  expired_keys now [] = []
  expired_keys now ((h, p) ∷ peers) =
      if is_expired now p then h ∷ expired_keys now peers else expired_keys now peers

  unfoldable pub sweep_expired : ℕ → PeerTracker I → PeerTracker I
  unfolding sweep_keys expired_keys
  sweep_expired now t = sweep_keys (expired_keys now t.peers) t
