-- ===== src/Tests/Puzzle.antt =====
-- The search with a hash that is the length of the nonce.
use retiboard.Base.{
  codes, ◌+◌, ◌^◌, ℕ, zero, suc, ◌<◌, ◌≡◌, ◌⊎◌, true, false, String, length, some, none,
}
use retiboard.Base.Int.{pos}
use retiboard.Pow.{verify_pow, solve_pow}
use retiboard.Pow.Solve.{verify_pow-solve_pow}

abbrev canonical : String → String
canonical metadata = metadata

abbrev length_hash : String → String → ℕ
length_hash text nonce = 2 ^ 250 + length (codes nonce)

abbrev nonces : ℕ → String
nonces zero = ""
nonces (suc n) = String.◌∷◌ "x" (nonces n)

verify_pow-solve_pow_example :
    ((nonce : String) × (solve_pow canonical length_hash nonces "post" (pos 5) 3 ≡ some nonce)
      × (verify_pow canonical length_hash "post" nonce (pos 5) ≡ true))
    ⊎ ((solve_pow canonical length_hash nonces "post" (pos 5) 3 ≡ none)
        × ((j : ℕ) → j < 3 → verify_pow canonical length_hash "post" (nonces j) (pos 5) ≡ false))
verify_pow-solve_pow_example = verify_pow-solve_pow canonical length_hash nonces "post" (pos 5) 3
