-- ===== src/Pow.antt =====
-- retiboard/crypto/pow.py: a post carries a nonce for which the hash of its metadata is small. What
-- makes the text of the metadata, the hash as a number, and the random nonces are arguments.
pub mod Solve
use retiboard.Base.{
  ℕ, zero, suc, ◌-◌, ◌^◌, ltb, leb, ◌==◌, if◌then◌else◌, Bool, true, ◌&&◌, String, Option, none,
  some,
}
use retiboard.Base.Int.{ℤ, pos, negsuc}

-- Whether a hash is below `difficulty_target`, for a difficulty above 0. From 257 on the target is a
-- floating-point number below 1, and from 1331 on it is 0.
unfoldable pub below_target : ℕ → ℕ → Bool
below_target difficulty hash =
    if leb difficulty 256
    then ltb hash (2 ^ (256 - difficulty))
    else hash == 0 && leb difficulty 1330

module _ {ℓ} {A : Type ℓ} (canonicalize_metadata : A → String)
    (compute_pow_hash : String → String → ℕ) where
  unfoldable pub verify_pow : A → String → ℤ → Bool
  verify_pow metadata nonce (pos zero) = true
  verify_pow metadata nonce (negsuc n) = true
  verify_pow metadata nonce (pos (suc n)) =
      below_target (suc n) (compute_pow_hash (canonicalize_metadata metadata) nonce)

  -- The loop of `solve_pow`: `token_hex i` is the nonce of round `i`.
  unfoldable pub solve_from :
      (token_hex : ℕ → String) → String → (difficulty rounds i : ℕ) → Option String
  solve_from token_hex canonical difficulty zero i = none
  solve_from token_hex canonical difficulty (suc rounds) i =
      let rest = solve_from token_hex canonical difficulty rounds (suc i) in
      if below_target difficulty (compute_pow_hash canonical (token_hex i))
      then some (token_hex i)
      else rest

  unfoldable pub solve_pow : (ℕ → String) → A → ℤ → (max_iterations : ℕ) → Option String
  unfolding solve_from
  solve_pow token_hex metadata (pos zero) max_iterations = some ""
  solve_pow token_hex metadata (negsuc n) max_iterations = some ""
  solve_pow token_hex metadata (pos (suc n)) max_iterations =
      solve_from token_hex (canonicalize_metadata metadata) (suc n) max_iterations 0
