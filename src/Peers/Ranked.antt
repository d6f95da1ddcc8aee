-- ===== src/Peers/Ranked.antt =====
-- The order in which the calls that choose peers return them.
use retiboard.Base.{ℕ, ◌≡◌, arith, ltb, true, false, String}
use retiboard.Base.Sort.{IsSorted, sort_by-IsSorted, take-IsSorted}
use retiboard.Peers.Info.{PeerInfo}
use retiboard.Peers.Tracker.{PeerTracker}
use retiboard.Peers.Select.{
  score_before, better, asked_before, get_peers, get_fetch_peers, get_replication_targets,
  get_direct_have_peers,
}

module _ {I : Type 0} where
  score_before-asymmetric : (p q : PeerInfo I) → score_before p q ≡ true → score_before q p ≡ false
  unfolding score_before
  score_before-asymmetric p q h = ground arith

  asked_before-asymmetric : (p q : PeerInfo I) → asked_before p q ≡ true → asked_before q p ≡ false
  unfolding asked_before
  asked_before-asymmetric p q h = ground arith

  -- The peers for a fetch and those for a replication come in the order of their scores, best first;
  -- those for a direct HAVE come in the order of the time since they were last asked, longest first, and
  -- of rank, balance and last sight where that is equal; and the peers of a board come last seen first.
  get_fetch_peers-IsSorted :
      (now : ℕ) (t : PeerTracker I) (board_id exclude_hash : String) (count : ℕ)
      → IsSorted better (get_fetch_peers now t board_id count)
        × IsSorted better (get_replication_targets now t board_id exclude_hash count)
        × IsSorted asked_before (get_direct_have_peers now t board_id exclude_hash count)
        × IsSorted (λ p q. ltb q.last_seen p.last_seen) (get_peers now t board_id)
  unfolding get_fetch_peers get_replication_targets get_direct_have_peers get_peers
  get_fetch_peers-IsSorted now t board_id exclude_hash count =
      let best_first =
        λ (p q : PeerInfo I) (h : better p q ≡ true). score_before-asymmetric q p h in
      (
        take-IsSorted better count _ (sort_by-IsSorted better best_first _),
        take-IsSorted better count _ (sort_by-IsSorted better best_first _),
        take-IsSorted asked_before count _
            (sort_by-IsSorted asked_before asked_before-asymmetric _),
        sort_by-IsSorted _ (λ p q h. ground arith) _,
      )
