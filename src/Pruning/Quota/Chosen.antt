-- ===== src/Pruning/Quota/Chosen.antt =====
-- Which threads the quota takes.
use retiboard.Base.{
  ℕ, ◌+◌, ◌≤◌, ◌<◌, ◌≡◌, ◌⊎◌, inl, inr, refl, ap, arith, leb, Bool, true, false, String, ltb, List,
  [], ◌∷◌, ◌++◌, sum_by, Bool-cases,
}
use retiboard.Base.Dict.{Dict}
use retiboard.Base.Sort.{IsSorted, sort_by-IsSorted}
use retiboard.Pruning.Board.{BoardState}
use mathlib.Core.List.{Permᴰ}
use retiboard.Pruning.Quota.Candidates.{candidates, get_all_active_threads_global-perm}
use retiboard.Pruning.Quota.{
  GlobalThread, all_threads, get_all_active_threads_global, chosen_from, chosen_threads,
  limit_bytes, bytes_to_prune,
}

abbrev pub sizes : List GlobalThread → ℕ
sizes = sum_by (λ t. t.total_size)

-- A part of the threads from the front: all of them, or enough; and without the last one not enough.
abbrev pub IsShortest : (needed : ℕ) → List GlobalThread → List GlobalThread → Type 0
IsShortest needed threads chosen =
    (rest : List GlobalThread) × (chosen ++ rest ≡ threads)
    × ((rest ≡ []) ⊎ (needed ≤ sizes chosen))
    × ((chosen ≡ [])
        ⊎ ((first : List GlobalThread) × (last : GlobalThread) × (chosen ≡ first ++ last ∷ [])
            × (sizes first < needed)))

-- The same after some bytes have been chosen.
abbrev Shortest : (needed pruned : ℕ) → List GlobalThread → List GlobalThread → Type 0
Shortest needed pruned threads chosen =
    (rest : List GlobalThread) × (chosen ++ rest ≡ threads)
    × ((rest ≡ []) ⊎ (needed ≤ pruned + sizes chosen))
    × ((chosen ≡ [])
        ⊎ ((first : List GlobalThread) × (last : GlobalThread) × (chosen ≡ first ++ last ∷ [])
            × (pruned + sizes first < needed)))

one_more :
    (needed pruned : ℕ) (t : GlobalThread) (threads chosen : List GlobalThread)
    → pruned < needed
    → Shortest needed (pruned + t.total_size) threads chosen
    → Shortest needed pruned (t ∷ threads) (t ∷ chosen)
unfolding sum_by
one_more needed pruned t threads chosen h (rest, whole, enough, ends) = (
  rest,
  ap (◌∷◌ t) whole,
  elim enough [ inl e ↦ inl e | inr k ↦ inr (omega arith) ],
  inr (elim ends [
    | inl e ↦ ([], t, ap (◌∷◌ t) e, omega arith)
    | inr (first, last, e, k) ↦ (t ∷ first, last, ap (◌∷◌ t) e, omega arith)
  ]),
)

chosen_from-Shortest :
    (needed pruned : ℕ) (threads : List GlobalThread)
    → Shortest needed pruned threads (chosen_from needed pruned threads)
unfolding chosen_from sum_by
chosen_from-Shortest needed pruned [] = ([], refl, inl refl, inl refl)
chosen_from-Shortest needed pruned (t ∷ threads) = elim (Bool-cases (leb needed pruned)) [
  | inl e ↦ rw (e, chosen_from) (t ∷ threads, refl, inr (ground (arith, e)), inl refl)
  | inr e ↦
      rw (e, chosen_from)
        (one_more needed pruned t threads (chosen_from needed (pruned + t.total_size) threads)
          (ground (arith, e)) (chosen_from-Shortest needed (pruned + t.total_size) threads))
]

from_zero :
    (needed : ℕ) (threads : List GlobalThread)
    → IsShortest needed threads (chosen_from needed 0 threads)
from_zero needed threads =
    let (rest, whole, enough, ends) = chosen_from-Shortest needed 0 threads in
    (
      rest,
      whole,
      elim enough [ inl e ↦ inl e | inr k ↦ inr (omega arith) ],
      elim ends [ inl e ↦ inl e | inr (first, last, e, k) ↦ inr (first, last, e, omega arith) ],
    )

not_both :
    (t u : GlobalThread)
    → ltb t.last_activity u.last_activity ≡ true
    → ltb u.last_activity t.last_activity ≡ false
not_both t u h = ground arith

-- Where the files take more than the limit, take the threads of all boards whose opening row is there,
-- not abandoned and not pinned, in an order in which none stands after one with a later activity: the
-- quota takes these from the front, and stops as soon as their declared sizes reach what is needed to be at
-- nine tenths of the limit, or when none is left; otherwise it takes nothing.
pub chosen_threads_lem :
    (is_pinned : String → String → Bool) (limit_mb total_bytes : ℕ)
    (boards : Dict String BoardState)
    → ((total_bytes ≤ limit_bytes limit_mb)
        × (chosen_threads is_pinned limit_mb total_bytes boards ≡ []))
      ⊎ ((limit_bytes limit_mb < total_bytes)
          × Permᴰ (get_all_active_threads_global is_pinned boards) (candidates is_pinned boards)
          × IsSorted
              (λ t u. ltb t.last_activity u.last_activity)
              (get_all_active_threads_global is_pinned boards)
          × IsShortest
              (bytes_to_prune limit_mb total_bytes)
              (get_all_active_threads_global is_pinned boards)
              (chosen_threads is_pinned limit_mb total_bytes boards))
unfolding chosen_threads get_all_active_threads_global
chosen_threads_lem is_pinned limit_mb total_bytes boards =
    elim (Bool-cases (leb total_bytes (limit_bytes limit_mb))) [
      | inl e ↦ inl (ground (arith, e), rw (e, chosen_threads) refl)
      | inr e ↦ inr (
        ground (arith, e),
        get_all_active_threads_global-perm is_pinned boards,
        sort_by-IsSorted (λ t u. ltb t.last_activity u.last_activity) not_both
            (all_threads is_pinned boards),
        rw (e, chosen_threads)
            (from_zero (bytes_to_prune limit_mb total_bytes)
              (get_all_active_threads_global is_pinned boards)),
      )
    ]
