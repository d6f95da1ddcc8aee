-- ===== src/Swarm/Tracking.antt =====
-- The two tables of `SwarmFetcher`: the requests that a chunk holds, and the chunk of a request.
use retiboard.Base.{
  nat_key, text_key, ℕ, ◌≡◌, refl, inl, inr, ◌==◌, if◌then◌else◌, Option-cases, arith, Bool, true,
  false, not, ◌&&◌, String, same, List, [], ◌∷◌, some, none,
}
use retiboard.Base.Dict.{lookup, erase, change, lookup-erase, lookup-change}
use retiboard.Base.Sets.{contains, discard, contains-discard}
use retiboard.Swarm.State.{SwarmChunkState, SwarmFetcher}
use retiboard.Swarm.Marks.{on_peer, pop_request, landed, cancel_all}

abbrev pub holds : SwarmFetcher → ℕ → String → Bool
holds s i request_id = elim (lookup i s.chunks) [
  | none ↦ false
  | some c ↦ contains request_id c.active_request_ids
]

abbrev pub filed : SwarmFetcher → ℕ → String → Bool
filed s i request_id = elim (lookup request_id s.requests) [
  | none ↦ false
  | some r ↦ r.chunk_index == i
]

pub record IsTracked (s : SwarmFetcher) : Type 0 where
  pub agree : (i : ℕ) (request_id : String) → holds s i request_id ≡ filed s i request_id
  pub indexed : (i : ℕ) (c : SwarmChunkState) → lookup i s.chunks ≡ some c → c.chunk_index ≡ i

-- A change of a chunk that keeps its index and its requests.
pub change-IsTracked :
    (f : SwarmChunkState → SwarmChunkState) (i : ℕ) (s : SwarmFetcher)
    → ((c : SwarmChunkState) → (f c).chunk_index ≡ c.chunk_index)
    → ((c : SwarmChunkState) → (f c).active_request_ids ≡ c.active_request_ids)
    → IsTracked s
    → IsTracked (record s { chunks = change f i s.chunks })
change-IsTracked f i s same_index same_ids t = record {
  agree = λ j rid. elim (Option-cases (lookup i s.chunks)) [
    | inl e ↦ ground (arith, t.agree j rid, lookup-change f i j s.chunks)
    | inr (c, e) ↦ ground (arith, t.agree j rid, lookup-change f i j s.chunks, same_ids c)
  ];
  indexed = λ j d known. elim (Option-cases (lookup i s.chunks)) [
    | inl e ↦ ground (arith, t.indexed j d, lookup-change f i j s.chunks)
    | inr (c, e) ↦
        ground (arith, t.indexed j d, t.indexed i c e, lookup-change f i j s.chunks, same_index c)
  ];
}

-- A request is taken out of both tables.
pub drop-IsTracked :
    (f : SwarmChunkState → SwarmChunkState) (i : ℕ) (request_id : String) (s : SwarmFetcher)
    → ((c : SwarmChunkState) → (f c).chunk_index ≡ c.chunk_index)
    → ((c : SwarmChunkState) → (f c).active_request_ids ≡ discard request_id c.active_request_ids)
    → ((j : ℕ) → filed s j request_id ≡ true → j ≡ i)
    → IsTracked s
    → IsTracked (record s { requests = erase request_id s.requests; chunks = change f i s.chunks })
drop-IsTracked f i request_id s same_index less own t = record {
  agree = λ j rid. elim (Option-cases (lookup i s.chunks)) [
    | inl e ↦ ground (
      arith,
      t.agree j rid,
      t.agree j request_id,
      own j,
      lookup-change f i j s.chunks,
      lookup-erase request_id rid s.requests,
    )
    | inr (c, e) ↦ ground (
      arith,
      t.agree j rid,
      t.agree j request_id,
      own j,
      lookup-change f i j s.chunks,
      lookup-erase request_id rid s.requests,
      less c,
      contains-discard request_id rid c.active_request_ids,
    )
  ];
  indexed = λ j d known. elim (Option-cases (lookup i s.chunks)) [
    | inl e ↦ ground (arith, t.indexed j d, lookup-change f i j s.chunks)
    | inr (c, e) ↦
        ground (arith, t.indexed j d, t.indexed i c e, lookup-change f i j s.chunks, same_index c)
  ];
}

pub lookup-cancel_all :
    (request_id : String) (ids : List String) (s : SwarmFetcher) (rid : String)
    → lookup rid (cancel_all request_id ids s).0.requests
      ≡ (if contains rid ids && not (same rid request_id) then none else lookup rid s.requests)
unfolding cancel_all contains pop_request on_peer
lookup-cancel_all request_id [] s rid = refl
lookup-cancel_all request_id (x ∷ ids) s rid =
    elim (Option-cases (if same x request_id then none else lookup x s.requests)) [
      | inl e ↦ rw (e, cancel_all) (ground (arith, lookup-cancel_all request_id ids s rid))
      | inr (r, e) ↦
          rw (e, cancel_all)
            (ground (
              arith,
              lookup-cancel_all request_id ids (on_peer landed r.peer_lxmf_hash (pop_request x s))
                  rid,
              lookup-erase x rid s.requests,
            ))
    ]

pub cancel_all-chunks :
    (request_id : String) (ids : List String) (s : SwarmFetcher)
    → (cancel_all request_id ids s).0.chunks ≡ s.chunks
unfolding cancel_all pop_request on_peer
cancel_all-chunks request_id [] s = refl
cancel_all-chunks request_id (x ∷ ids) s =
    elim (Option-cases (if same x request_id then none else lookup x s.requests)) [
      | inl e ↦ rw (e, cancel_all) (cancel_all-chunks request_id ids s)
      | inr (r, e) ↦
          rw (e, cancel_all)
            (cancel_all-chunks request_id ids (on_peer landed r.peer_lxmf_hash (pop_request x s)))
    ]
