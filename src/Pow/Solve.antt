-- ===== src/Pow/Solve.antt =====
-- What the search finds, and when it gives up.
use retiboard.Base.{
  ℕ, zero, suc, ◌+◌, ◌≤◌, ◌<◌, ◌≡◌, refl, inl, inr, ◌⊎◌, arith, Bool-cases, Option-cases, Bool,
  true, false, String, Option, none, some,
}
use retiboard.Base.Int.{ℤ, pos, negsuc}
use retiboard.Pow.{below_target, verify_pow, solve_from, solve_pow}

module _ {ℓ} {A : Type ℓ} (canonicalize_metadata : A → String)
    (compute_pow_hash : String → String → ℕ) (token_hex : ℕ → String) where
  -- The search as it runs, with its arguments.
  abbrev search : String → (difficulty rounds i : ℕ) → Option String
  search = solve_from canonicalize_metadata compute_pow_hash token_hex

  abbrev passes : String → ℕ → String → Bool
  passes canonical difficulty nonce = below_target difficulty (compute_pow_hash canonical nonce)

  search-found :
      (canonical : String) (difficulty rounds i : ℕ) (nonce : String)
      → search canonical difficulty rounds i ≡ some nonce
      → passes canonical difficulty nonce ≡ true
  unfolding solve_from
  search-found canonical difficulty zero i nonce h = absurd (ground arith)
  search-found canonical difficulty (suc rounds) i nonce h =
      elim (Bool-cases (passes canonical difficulty (token_hex i))) [
        | inl e ↦ ground (arith, rw e at h)
        | inr e ↦ search-found canonical difficulty rounds (suc i) nonce (rw e at h)
      ]

  search-gives_up :
      (canonical : String) (difficulty rounds i : ℕ)
      → search canonical difficulty rounds i ≡ none
      → (j : ℕ) → i ≤ j
      → j < i + rounds
      → passes canonical difficulty (token_hex j) ≡ false
  unfolding solve_from
  search-gives_up canonical difficulty zero i h j le lt = absurd (omega arith)
  search-gives_up canonical difficulty (suc rounds) i h j le lt =
      elim (Bool-cases (passes canonical difficulty (token_hex i))) [
        | inl e ↦ absurd (ground (arith, rw e at h))
        | inr e ↦ ground (arith, search-gives_up canonical difficulty rounds (suc i) (rw e at h) j)
      ]

  -- Either `solve_pow` returns a nonce, which `verify_pow` accepts at the same difficulty, or it returns
  -- none, and then `verify_pow` refuses every nonce that was drawn in its rounds.
  pub verify_pow-solve_pow :
      (metadata : A) (difficulty : ℤ) (max_iterations : ℕ)
      → ((nonce : String) × (solve_pow canonicalize_metadata compute_pow_hash token_hex metadata
              difficulty max_iterations
            ≡ some nonce)
          × (verify_pow canonicalize_metadata compute_pow_hash metadata nonce difficulty ≡ true))
        ⊎ ((solve_pow canonicalize_metadata compute_pow_hash token_hex metadata difficulty
                max_iterations
              ≡ none)
            × ((j : ℕ)
                → j < max_iterations
                → verify_pow canonicalize_metadata compute_pow_hash metadata
                    (token_hex j)
                    difficulty
                  ≡ false))
  unfolding solve_pow verify_pow
  verify_pow-solve_pow metadata (pos zero) max_iterations = inl ("", refl, refl)
  verify_pow-solve_pow metadata (negsuc n) max_iterations = inl ("", refl, refl)
  verify_pow-solve_pow metadata (pos (suc n)) max_iterations =
      elim (Option-cases (search (canonicalize_metadata metadata) (suc n) max_iterations 0)) [
        | inl e ↦ inr (
          e,
          λ j lt.
              search-gives_up (canonicalize_metadata metadata) (suc n) max_iterations 0 e j
                (omega arith) (omega (arith, lt)),
        )
        | inr (nonce, e) ↦ inl (
          nonce,
          e,
          search-found (canonicalize_metadata metadata) (suc n) max_iterations 0 nonce e,
        )
      ]
