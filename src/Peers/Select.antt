-- ===== src/Peers/Select.antt =====
-- `PeerTracker`: the calls that choose peers. Python's sets have no order: the order in which a set is
-- read is that of the list that stands for it, and it decides between peers that are equal otherwise.
use retiboard.Base.{
  text_key, ℕ, ◌+◌, ◌-◌, min, leb, ltb, ◌==◌, if◌then◌else◌, Bool, false, not, ◌&&◌, String, same,
  truthy, List, [], ◌∷◌, length, take, filter_by, is_some, Option, none, some,
}
use retiboard.Base.Time.{seconds}
use retiboard.Base.Dict.{Dict, lookup, keys, values}
use retiboard.Base.Sets.{contains, add}
use retiboard.Base.Sort.{sort_by}
use retiboard.Peers.Info.{
  PathState, unknown, requested, known, stale, unreachable, PeerInfo, is_expired,
}
use retiboard.Peers.Boards.{members}
use retiboard.Peers.Tracker.{PeerTracker, is_self}

abbrev pub path_rank : PathState → ℕ
path_rank known = 4
path_rank stale = 3
path_rank requested = 2
path_rank unknown = 1
path_rank unreachable = 0

-- Whether two states are one, as their ranks are.
abbrev pub same_path : PathState → PathState → Bool
same_path a b = path_rank a == path_rank b

abbrev as_number : Bool → ℕ
as_number b = if b then 1 else 0

-- `hashes.update(...)`, for each board.
unfoldable pub add_all : List String → List String → List String
add_all [] hashes = hashes
add_all (h ∷ hs) hashes = add_all hs (add h hashes)

unfoldable pub board_hashes : Dict String (List String) → List String → List String → List String
unfolding add_all
board_hashes index [] hashes = hashes
board_hashes index (b ∷ bs) hashes = board_hashes index bs (add_all (members index b) hashes)

module _ {I : Type 0} where
  -- The order of `_peer_quality_score`, as tuples are compared. The difference of successes and
  -- failures may be negative, so that sums are compared in place of differences.
  unfoldable pub score_before : PeerInfo I → PeerInfo I → Bool
  score_before p q =
      let p_ratio = p.delivery_successes + q.delivery_failures in
      let q_ratio = q.delivery_successes + p.delivery_failures in
      if not (path_rank p.path_state == path_rank q.path_state)
      then ltb (path_rank p.path_state) (path_rank q.path_state)
      else if not (as_number p.verified == as_number q.verified)
      then ltb (as_number p.verified) (as_number q.verified)
      else if not (p_ratio == q_ratio)
      then ltb p_ratio q_ratio
      else if not (p.last_success_at == q.last_success_at)
      then ltb p.last_success_at q.last_success_at
      else ltb p.last_seen q.last_seen

  -- `reverse=True`: the best first, and equals in the order that they had.
  abbrev pub better : PeerInfo I → PeerInfo I → Bool
  better p q = score_before q p

  -- The order by (last_direct_have_at, -rank, -ratio, -last_seen).
  unfoldable pub asked_before : PeerInfo I → PeerInfo I → Bool
  asked_before p q =
      let p_ratio = p.delivery_successes + q.delivery_failures in
      let q_ratio = q.delivery_successes + p.delivery_failures in
      if not (p.last_direct_have_at == q.last_direct_have_at)
      then ltb p.last_direct_have_at q.last_direct_have_at
      else if not (path_rank p.path_state == path_rank q.path_state)
      then ltb (path_rank q.path_state) (path_rank p.path_state)
      else if not (p_ratio == q_ratio)
      then ltb q_ratio p_ratio
      else ltb q.last_seen p.last_seen

  -- The loop of `get_peers` over the hashes of a board.
  unfoldable pub active_peers : ℕ → Dict String (PeerInfo I) → List String → List (PeerInfo I)
  active_peers now peers [] = []
  active_peers now peers (h ∷ hs) = elim (lookup h peers) [
    | none ↦ active_peers now peers hs
    | some p ↦ if is_expired now p then active_peers now peers hs else p ∷ active_peers now peers hs
  ]

  unfoldable pub get_peers : ℕ → PeerTracker I → String → List (PeerInfo I)
  unfolding active_peers
  get_peers now t board_id =
      sort_by (λ p q. ltb q.last_seen p.last_seen)
        (active_peers now t.peers (members t.board_index board_id))

  -- Not this node, with an identity, and not given up.
  abbrev pub is_reachable : PeerTracker I → PeerInfo I → Bool
  is_reachable t p =
      not (is_self t p.lxmf_hash) && is_some p.identity && not (same_path p.path_state unreachable)

  unfoldable pub get_lxmf_peers : ℕ → PeerTracker I → String → List (PeerInfo I)
  unfolding get_peers
  get_lxmf_peers now t board_id =
      filter_by (λ p. is_reachable t p && leb p.next_retry_at now) (get_peers now t board_id)

  -- All peers of a board that could be asked, those in backoff and those not heard of lately too.
  unfoldable pub fallback_peers : PeerTracker I → String → List (PeerInfo I)
  fallback_peers t board_id =
      filter_by (λ p. contains board_id p.boards && is_reachable t p) (values t.peers)

  unfoldable pub fetch_candidates : ℕ → PeerTracker I → String → List (PeerInfo I)
  unfolding get_lxmf_peers fallback_peers
  fetch_candidates now t board_id =
      let peers = get_lxmf_peers now t board_id in
      if length peers == 0 then fallback_peers t board_id else peers

  unfoldable pub get_fetch_peers : ℕ → PeerTracker I → String → ℕ → List (PeerInfo I)
  unfolding fetch_candidates
  get_fetch_peers now t board_id count =
      take count (sort_by better (fetch_candidates now t board_id))

  -- An empty hash excludes nobody.
  abbrev without : String → List (PeerInfo I) → List (PeerInfo I)
  without exclude_hash peers =
      if truthy exclude_hash
      then filter_by (λ p. not (same p.lxmf_hash exclude_hash)) peers
      else peers

  unfoldable pub get_direct_have_peers : ℕ → PeerTracker I → String → String → ℕ → List (PeerInfo I)
  unfolding asked_before
  get_direct_have_peers now t board_id exclude_hash count =
      take count (sort_by asked_before (without exclude_hash (get_lxmf_peers now t board_id)))

  unfoldable pub get_replication_targets :
      ℕ → PeerTracker I → String → String → ℕ → List (PeerInfo I)
  get_replication_targets now t board_id exclude_hash count =
      take count (sort_by better (without exclude_hash (get_lxmf_peers now t board_id)))

  unfoldable pub peer_count : ℕ → PeerTracker I → String → ℕ
  peer_count now t board_id = length (get_peers now t board_id)

  unfoldable pub unique_peer_count : ℕ → PeerTracker I → Option (List String) → ℕ
  unfolding board_hashes
  unique_peer_count now t board_ids =
      let hashes : List String = elim board_ids [
        | none ↦ keys t.peers
        | some bs ↦ board_hashes t.board_index bs []
      ] in
      length (
        filter_by
          (λ h. elim (lookup h t.peers) [
            | none ↦ false
            | some p ↦ not (is_self t h) && ltb (now - p.last_seen) (seconds 600)
          ])
          hashes)

  -- The number that `get_path_summary` returns for a state.
  unfoldable pub path_summary : ℕ → PeerTracker I → PathState → ℕ
  path_summary now t state =
      length
        (filter_by (λ p. not (is_expired now p) && same_path p.path_state state) (values t.peers))

  unfoldable pub pex_candidates : ℕ → PeerTracker I → List String → List (PeerInfo I)
  pex_candidates now t [] = []
  pex_candidates now t (h ∷ hs) = elim (lookup h t.peers) [
    | none ↦ pex_candidates now t hs
    | some p ↦
        if not (is_self t h)
          && p.verified
          && is_some p.identity
          && ltb (now - p.last_seen) (seconds 7200)
        then p ∷ pex_candidates now t hs
        else pex_candidates now t hs
  ]

  -- `sample` is `random.sample`.
  unfoldable pub get_pex_peers :
      (sample : List (PeerInfo I) → ℕ → List (PeerInfo I))
      → ℕ
      → PeerTracker I
      → String
      → ℕ
      → List (PeerInfo I)
  unfolding pex_candidates
  get_pex_peers sample now t board_id count =
      let candidates = pex_candidates now t (members t.board_index board_id) in
      if length candidates == 0 then [] else sample candidates (min (length candidates) count)
