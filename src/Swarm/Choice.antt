-- ===== src/Swarm/Choice.antt =====
-- What holds of the chunk that `_select_chunk_for_peer` chooses.
use retiboard.Base.{
  false, Bool, ◌<◌, ◌⊎◌, nat_key, text_key, ℕ, ◌≡◌, inl, inr, ◌==◌, Bool-cases, Option-cases, arith,
  true, ◌&&◌, String, List, [], ◌∷◌, length, All, some,
}
use retiboard.Base.Dict.{lookup}
use retiboard.Swarm.State.{is_endgame, peer_has_chunk, SwarmChunkState, SwarmFetcher}
use retiboard.Swarm.Select.{
  select_duplicate, with_other, ordered_chunks, select_chunk_for_peer, entries_at, eligible,
  select_idle,
}

-- Each chunk stands under its own index.
abbrev IsIndexed : SwarmFetcher → Type 0
IsIndexed s = (i : ℕ) (c : SwarmChunkState) → lookup i s.chunks ≡ some c → c.chunk_index ≡ i

abbrev Stands : SwarmFetcher → SwarmChunkState → Type 0
Stands s c = lookup c.chunk_index s.chunks ≡ some c

entries_at-Stands :
    (s : SwarmFetcher) (is : List ℕ) → IsIndexed s → All (Stands s) (entries_at s.chunks is)
unfolding entries_at
entries_at-Stands s [] h = tt
entries_at-Stands s (i ∷ is) h = elim (Option-cases (lookup i s.chunks)) [
  | inl e ↦ rw (e, entries_at) (entries_at-Stands s is h)
  | inr (c, e) ↦ rw (e, entries_at) (ground (arith, h i c e), entries_at-Stands s is h)
]

select_idle-found :
    (s : SwarmFetcher) (peer : String) (cs : List SwarmChunkState) (i : ℕ)
    → All (Stands s) cs
    → select_idle s peer cs ≡ some i
    → (c : SwarmChunkState) × (lookup i s.chunks ≡ some c)
      × (eligible s peer c ≡ true)
      × (c.active_request_ids ≡ [])
unfolding select_idle
select_idle-found s peer [] i all h = absurd (ground arith)
select_idle-found s peer (c ∷ cs) i all h =
    elim (Bool-cases (eligible s peer c && length c.active_request_ids == 0)) [
      | inr e ↦ select_idle-found s peer cs i all.1 (rw e at h)
      | inl e ↦ (c, ground (arith, all.0, rw e at h), ground arith, ground arith)
    ]

select_duplicate-found :
    (s : SwarmFetcher) (peer : String) (cs : List SwarmChunkState) (i : ℕ)
    → All (Stands s) cs
    → select_duplicate s peer cs ≡ some i
    → (c : SwarmChunkState) × (lookup i s.chunks ≡ some c)
      × (eligible s peer c ≡ true)
      × (with_other s peer c.active_request_ids ≡ true)
unfolding select_duplicate
select_duplicate-found s peer [] i all h = absurd (ground arith)
select_duplicate-found s peer (c ∷ cs) i all h =
    elim (Bool-cases (eligible s peer c && with_other s peer c.active_request_ids)) [
      | inr e ↦ select_duplicate-found s peer cs i all.1 (rw e at h)
      | inl e ↦ (c, ground (arith, all.0, rw e at h), ground arith, ground arith)
    ]

-- What is known of a chunk that a peer is to be asked for.
abbrev pub Chosen : ℕ → SwarmFetcher → String → Bool → SwarmChunkState → Type 0
Chosen now s peer duplicate c =
    (c.is_stored ≡ false)
    × (c.attempt_count < s.max_attempts_per_chunk)
    × (peer_has_chunk s peer c.chunk_index ≡ true)
    × (((duplicate ≡ false) × (c.active_request_ids ≡ []))
        ⊎ ((duplicate ≡ true)
            × (is_endgame now s ≡ true)
            × (with_other s peer c.active_request_ids ≡ true)))

eligible-Chosen :
    (now : ℕ) (s : SwarmFetcher) (peer : String) (duplicate : Bool) (c : SwarmChunkState)
    → eligible s peer c ≡ true
    → ((duplicate ≡ false) × (c.active_request_ids ≡ []))
      ⊎ ((duplicate ≡ true)
          × (is_endgame now s ≡ true)
          × (with_other s peer c.active_request_ids ≡ true))
    → Chosen now s peer duplicate c
unfolding eligible
eligible-Chosen now s peer duplicate c h why = (ground arith, ground arith, ground arith, why)

-- The chunk that is chosen for a peer is in the table, is not stored, has attempts left, and the peer
-- may have it. Either nobody is asked for it and the request is no duplicate, or the download is near
-- its end, the request is a duplicate, and exactly one other peer is asked for the chunk.
pub select_chunk_for_peer-Chosen :
    (now : ℕ) (s : SwarmFetcher) (peer : String) (i : ℕ) (duplicate : Bool)
    → IsIndexed s
    → select_chunk_for_peer now s peer ≡ some (i, duplicate)
    → (c : SwarmChunkState) × (lookup i s.chunks ≡ some c) × Chosen now s peer duplicate c
unfolding select_chunk_for_peer ordered_chunks
select_chunk_for_peer-Chosen now s peer i duplicate indexed h =
    elim (Option-cases (select_idle s peer (ordered_chunks now s))) [
      | inr (j, e) ↦
          let (c, there, fit, idle) =
            select_idle-found s peer (ordered_chunks now s) j (entries_at-Stands s _ indexed) e in
          (c, ground arith, eligible-Chosen now s peer duplicate c fit (ground arith))
      | inl e ↦ elim (Bool-cases (is_endgame now s)) [
        | inr f ↦ absurd (ground arith)
        | inl f ↦ elim (Option-cases (select_duplicate s peer (ordered_chunks now s))) [
          | inl g ↦ absurd (ground arith)
          | inr (j, g) ↦
              let (c, there, fit, one) =
                select_duplicate-found s peer (ordered_chunks now s) j
                  (entries_at-Stands s _ indexed) g in
              (c, ground arith, eligible-Chosen now s peer duplicate c fit (ground arith))
        ]
      ]
    ]
