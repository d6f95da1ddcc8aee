-- ===== src/Peers/Fetch.antt =====
-- Which peers `get_fetch_peers` returns.
use retiboard.Base.{
  text_key, ℕ, zero, suc, ◌≤◌, ◌<◌, ◌≡◌, inl, inr, arith, leb, ◌==◌, Bool-cases, Option-cases, Bool,
  true, ◌&&◌, String, List, [], ◌∷◌, length, length-take, take, filter_by, All, some,
}
use retiboard.Base.Dict.{Dict, lookup, values}
use retiboard.Base.Sets.{contains}
use retiboard.Base.Sort.{sort_by, sort_by-All, length-sort_by}
use retiboard.Peers.Info.{PeerInfo, is_expired}
use retiboard.Peers.Boards.{members}
use retiboard.Peers.Tracker.{PeerTracker}
use retiboard.Peers.Listed.{belongs, IsListed}
use retiboard.Peers.Reach.{Reach, Reach-Listed}
use retiboard.Peers.Select.{
  better, active_peers, get_peers, is_reachable, get_lxmf_peers, fallback_peers, fetch_candidates,
  get_fetch_peers,
}

module _ {I : Type 0} where
  -- A peer of the board that is not this node, has an identity and is not given up.
  abbrev pub is_usable : PeerTracker I → String → PeerInfo I → Bool
  is_usable t board_id p = contains board_id p.boards && is_reachable t p

  take-All {κ} :
      (P : PeerInfo I → Type κ) (n : ℕ) (ps : List (PeerInfo I)) → All P ps → All P (take n ps)
  take-All P zero ps h = tt
  take-All P (suc n) [] h = tt
  take-All P (suc n) (p ∷ ps) h = (h.0, take-All P n ps h.1)

  active_peers-All :
      (now : ℕ) (t : PeerTracker I) (board_id : String) (hs : List String)
      → ((h : String) → contains h hs ≡ true → belongs t board_id h ≡ true)
      → All (λ p. contains board_id p.boards ≡ true) (active_peers now t.peers hs)
  unfolding active_peers contains
  active_peers-All now t board_id [] listed = tt
  active_peers-All now t board_id (h ∷ hs) listed =
      let rest = active_peers-All now t board_id hs (λ j c. ground (arith, listed j)) in
      elim (Option-cases (lookup h t.peers)) [
        | inl e ↦ rw (e, active_peers) rest
        | inr (p, e) ↦ elim (Bool-cases (is_expired now p)) [
          | inl old ↦ rw (e, active_peers, old) rest
          | inr new ↦ rw (e, active_peers, new) (ground (arith, listed h), rest)
        ]
      ]

  filter_by-both :
      (a b : PeerInfo I → Bool) (ps : List (PeerInfo I))
      → All (λ p. a p ≡ true) ps
      → All (λ p. (a p && b p) ≡ true) (filter_by b ps)
  unfolding filter_by
  filter_by-both a b [] h = tt
  filter_by-both a b (p ∷ ps) h = elim (Bool-cases (b p)) [
    | inl e ↦ rw (e, filter_by) (ground (arith, h.0), filter_by-both a b ps h.1)
    | inr e ↦ rw (e, filter_by) (filter_by-both a b ps h.1)
  ]

  All-weaken :
      (a b : PeerInfo I → Bool) (ps : List (PeerInfo I))
      → ((p : PeerInfo I) → a p ≡ true → b p ≡ true)
      → All (λ p. a p ≡ true) ps
      → All (λ p. b p ≡ true) ps
  All-weaken a b [] weaker h = tt
  All-weaken a b (p ∷ ps) weaker h = (weaker p h.0, All-weaken a b ps weaker h.1)

  get_lxmf_peers-All :
      (now : ℕ) (t : PeerTracker I) (board_id : String)
      → IsListed t
      → All (λ p. is_usable t board_id p ≡ true) (get_lxmf_peers now t board_id)
  unfolding get_lxmf_peers get_peers
  get_lxmf_peers-All now t board_id listed =
      All-weaken (λ p. contains board_id p.boards && (is_reachable t p && leb p.next_retry_at now))
        (is_usable t board_id) _ (λ p h. ground arith)
        (filter_by-both (λ p. contains board_id p.boards) _ _
          (sort_by-All _ _ _ (
            active_peers-All now t board_id (members t.board_index board_id)
              (λ h c. listed board_id h c))))

  filter_by-true :
      (a : PeerInfo I → Bool) (ps : List (PeerInfo I)) → All (λ p. a p ≡ true) (filter_by a ps)
  unfolding filter_by
  filter_by-true a [] = tt
  filter_by-true a (p ∷ ps) = ground (arith, filter_by-true a ps)

  fetch_candidates-All :
      (now : ℕ) (t : PeerTracker I) (board_id : String)
      → IsListed t
      → All (λ p. is_usable t board_id p ≡ true) (fetch_candidates now t board_id)
  unfolding fetch_candidates fallback_peers
  fetch_candidates-All now t board_id listed =
      elim (Bool-cases (length (get_lxmf_peers now t board_id) == 0)) [
        | inl e ↦ rw (e, fetch_candidates) (filter_by-true (is_usable t board_id) (values t.peers))
        | inr e ↦ rw (e, fetch_candidates) (get_lxmf_peers-All now t board_id listed)
      ]

  filter_by-some :
      (a : PeerInfo I → Bool) (h : String) (q : PeerInfo I) (d : Dict String (PeerInfo I))
      → lookup h d ≡ some q
      → a q ≡ true
      → 0 < length (filter_by a (values d))
  unfolding filter_by lookup
  filter_by-some a h q [] found fit = absurd (ground arith)
  filter_by-some a h q ((k, p) ∷ d) found fit = ground (arith, filter_by-some a h q d)

  fetch_candidates-some :
      (now : ℕ) (t : PeerTracker I) (board_id h : String) (q : PeerInfo I)
      → lookup h t.peers ≡ some q
      → is_usable t board_id q ≡ true
      → 0 < length (fetch_candidates now t board_id)
  unfolding fetch_candidates fallback_peers
  fetch_candidates-some now t board_id h q found fit =
      elim (Bool-cases (length (get_lxmf_peers now t board_id) == 0)) [
        | inl e ↦
            rw (e, fetch_candidates) (filter_by-some (is_usable t board_id) h q t.peers found fit)
        | inr e ↦ rw (e, fetch_candidates) (ground arith)
      ]

  -- After any sequence of calls, with loads from disk only of entries that have room: where the
  -- table has a peer of the board that is not this node, has an identity and is not given up, and
  -- `count` is not 0, `get_fetch_peers` returns at least one and at most `count` peers, all of
  -- them such peers, also while all of them are in backoff.
  pub get_fetch_peers-Usable :
      (now : ℕ) (t : PeerTracker I) (board_id h : String) (count : ℕ) (q : PeerInfo I)
      → Reach t
      → lookup h t.peers ≡ some q
      → is_usable t board_id q ≡ true
      → 0 < count
      → All (λ p. is_usable t board_id p ≡ true) (get_fetch_peers now t board_id count)
        × (length (get_fetch_peers now t board_id count) ≤ count)
        × (0 < length (get_fetch_peers now t board_id count))
  unfolding get_fetch_peers
  get_fetch_peers-Usable now t board_id h count q reach found fit pos =
      let usable = fetch_candidates-All now t board_id (λ b k. Reach-Listed b k reach) in
      let sorted = length-sort_by better (fetch_candidates now t board_id) in
      let taken = length-take count (sort_by better (fetch_candidates now t board_id)) in
      let enough = fetch_candidates-some now t board_id h q found fit in
      (
        take-All _ count _ (sort_by-All better _ _ usable),
        omega (arith, taken),
        omega (arith, taken, sorted, enough, pos),
      )
