-- ===== src/Offers/Told.antt =====
-- What a node understands of another's offer.
use retiboard.Base.{
  ℕ, zero, suc, ◌+◌, ◌≤◌, ◌<◌, ◌≡◌, refl, sym, ap, ◌∙◌, arith, min, ltb, leb, ◌==◌, if◌then◌else◌,
  Bool, true, false, ◌&&◌, ◌||◌, String, List, [], ◌∷◌, map, length, any_by, All, some, nat_key,
  text_key, text_discrete, if_pos, Bool-cases, inl, inr,
}
use retiboard.Base.Int.{ℤ, pos}
use retiboard.Base.Dict.{lookup, lookup-insert}
use retiboard.Base.Sets.{contains}
use retiboard.Base.Sort.{sort_by, length-sort_by}
use retiboard.Base.Sort.Perm.{sort_by-perm, any_by-Permᴰ, All-Permᴰ}
use mathlib.Core.List.Permᴰ
use retiboard.Swarm.State.{
  SwarmFetcher, pair_before, normalized, update_peer_availability, peer_has_chunk,
}
use retiboard.Offers.{index_set, ranges_from, ranges_of, compress_chunk_indexes}

abbrev covers : ℕ → List (ℕ × ℕ) → Bool
covers i = any_by (λ r. leb r.0 i && leb i r.1)

covers-ranges_from :
    (i start prev : ℕ) (ordered : List ℕ)
    → start ≤ prev
    → covers i (ranges_from start prev ordered)
      ≡ ((leb start i && leb i prev) || contains i ordered)
unfolding ranges_from any_by contains
covers-ranges_from i start prev [] h = refl
covers-ranges_from i start prev (idx ∷ ordered) h = elim (Bool-cases (idx == prev + 1)) [
  | inl e ↦
      let reached : idx ≡ prev + 1 = ground (arith, e) in
      let rest = covers-ranges_from i start idx ordered (omega (arith, reached)) in
      rw (e, ranges_from) (rest ∙ ground (arith, e))
  | inr e ↦
      let rest = covers-ranges_from i idx idx ordered (omega arith) in
      rw (e, ranges_from) (ground (arith, rest))
]

-- The range is not empty and lies within the chunks.
abbrev Within : ℕ → ℕ × ℕ → Type 0
Within count r = (r.0 ≤ r.1) × (r.1 < count)

ranges_from-Within :
    (count start prev : ℕ) (ordered : List ℕ)
    → start ≤ prev
    → prev < count
    → All (λ i. i < count) ordered
    → All (Within count) (ranges_from start prev ordered)
unfolding ranges_from
ranges_from-Within count start prev [] h k a = ((h, k), tt)
ranges_from-Within count start prev (idx ∷ ordered) h k a = elim (Bool-cases (idx == prev + 1)) [
  | inl e ↦
      let reached : idx ≡ prev + 1 = ground (arith, e) in
      rw (e, ranges_from)
        (ranges_from-Within count start idx ordered (omega (arith, reached)) a.0 a.1)
  | inr e ↦
      rw (e, ranges_from) ((h, k), ranges_from-Within count idx idx ordered (omega arith) a.0 a.1)
]

ranges_of-Within :
    (count : ℕ) (ordered : List ℕ)
    → All (λ i. i < count) ordered
    → All (Within count) (ranges_of ordered)
unfolding ranges_of
ranges_of-Within count [] a = tt
ranges_of-Within count (i ∷ ordered) a = ranges_from-Within count i i ordered (omega arith) a.0 a.1

-- The ranges as they are sent.
abbrev pub sent : List (ℕ × ℕ) → List (ℤ × ℤ)
sent = map (λ r. (pos r.0, pos r.1))

-- Ranges within the chunks are taken as they are.
normalized-sent :
    (count : ℕ) (ranges : List (ℕ × ℕ))
    → All (Within count) ranges
    → normalized count (sent ranges) ≡ ranges
unfolding normalized
normalized-sent count [] a = refl
normalized-sent zero ((m, n) ∷ ranges) a = absurd (omega arith)
normalized-sent (suc count) ((m, n) ∷ ranges) a =
    let last : min count n ≡ n = omega arith in
    let order : ltb n m ≡ false = ground arith in
    rw (last, order, normalized-sent (suc count) ranges a.1) refl

contains-any_by : (i : ℕ) (xs : List ℕ) → contains i xs ≡ any_by (λ x. x == i) xs
unfolding contains any_by
contains-any_by i [] = refl
contains-any_by i (x ∷ xs) = ground (arith, contains-any_by i xs)

contains-sort_by : (i : ℕ) (xs : List ℕ) → contains i (sort_by ltb xs) ≡ contains i xs
contains-sort_by i xs =
    contains-any_by i (sort_by ltb xs)
    ∙ any_by-Permᴰ (λ x. x == i) (sort_by-perm ltb xs)
    ∙ sym (contains-any_by i xs)

covers-ranges_of : (i : ℕ) (ordered : List ℕ) → covers i (ranges_of ordered) ≡ contains i ordered
unfolding ranges_of contains any_by
covers-ranges_of i [] = refl
covers-ranges_of i (j ∷ ordered) = covers-ranges_from i j j ordered (omega arith) ∙ ground arith

if_or : (a b : Bool) → (if a then true else b) ≡ (a || b)
if_or a b = ground arith

update_told :
    (s : SwarmFetcher) (peer : String) (wire : List (ℤ × ℤ)) (i : ℕ)
    → peer_has_chunk (update_peer_availability s peer wire) peer i ≡ (
        length (normalized (length s.chunks) wire) == 0
        || covers i (normalized (length s.chunks) wire))
unfolding peer_has_chunk update_peer_availability
update_told s peer wire i =
    let ranges = normalized (length s.chunks) wire in
    let sorted = sort_by pair_before ranges in
    rw
      (
        lookup-insert peer peer sorted s.peer_chunk_ranges,
        if_pos {0, 0} (text_discrete peer peer) refl (some sorted)
            (lookup peer s.peer_chunk_ranges),
        peer_has_chunk,
      )
      (if_or (length sorted == 0) (covers i sorted)
        ∙ ap (λ n. n == 0 || covers i sorted) (length-sort_by pair_before ranges)
        ∙ ap (λ b. length ranges == 0 || b)
            (any_by-Permᴰ (λ r. leb r.0 i && leb i r.1) (sort_by-perm pair_before ranges)))

length-ranges_from :
    (start prev : ℕ) (ordered : List ℕ) → (length (ranges_from start prev ordered) == 0) ≡ false
unfolding ranges_from
length-ranges_from start prev [] = refl
length-ranges_from start prev (idx ∷ ordered) = ground (arith, length-ranges_from start idx ordered)

length-ranges_of : (ordered : List ℕ) → (length (ranges_of ordered) == 0) ≡ (length ordered == 0)
unfolding ranges_of
length-ranges_of [] = refl
length-ranges_of (i ∷ ordered) = length-ranges_from i i ordered ∙ ground arith

-- A node that has told another which chunks of a blob it has is taken to have exactly those chunks, as
-- long as the blob has them; but one that has told that it has none is taken to have every chunk.
pub peer_has_chunk-compress_chunk_indexes :
    (s : SwarmFetcher) (peer : String) (stored : List ℤ) (i : ℕ)
    → All (λ j. j < length s.chunks) (index_set stored)
    → peer_has_chunk (update_peer_availability s peer (sent (compress_chunk_indexes stored))) peer i
      ≡ (length (index_set stored) == 0 || contains i (index_set stored))
unfolding compress_chunk_indexes
peer_has_chunk-compress_chunk_indexes s peer stored i within =
    let known = index_set stored in
    let ordered = sort_by ltb known in
    let below = All-Permᴰ (λ j. j < length s.chunks) (Permᴰ.symm (sort_by-perm ltb known)) within in
    update_told s peer (sent (ranges_of ordered)) i
    ∙ ap (λ ranges. length ranges == 0 || covers i ranges)
        (normalized-sent (length s.chunks) (ranges_of ordered)
          (ranges_of-Within (length s.chunks) ordered below))
    ∙ ap (λ b. b || covers i (ranges_of ordered))
        (length-ranges_of ordered ∙ ap (λ n. n == 0) (length-sort_by ltb known))
    ∙ ap (λ b. length known == 0 || b) (covers-ranges_of i ordered ∙ contains-sort_by i known)
