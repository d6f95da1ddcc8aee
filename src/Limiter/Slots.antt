-- ===== src/Limiter/Slots.antt =====
-- How many syncs of a board run at once.
use retiboard.Base.{
  ◌↔◌, subst, text_key, ℕ, zero, suc, ◌+◌, ◌≤◌, ◌≡◌, refl, arith, if◌then◌else◌, Bool, true, String,
  same, List, [], ◌∷◌, none, some,
}
use retiboard.Base.Dict.{lookup, insert, lookup-insert}
use retiboard.Base.Sets.{contains}
use retiboard.Limiter.{SyncRateLimiter, new_limiter, slots, acquire, release}

-- How many of the syncs that run are of a board.
abbrev pub running : String → List String → ℕ
running board_id [] = 0
running board_id (b ∷ bs) = (if same b board_id then 1 else 0) + running board_id bs

abbrev without_one : String → List String → List String
without_one board_id [] = []
without_one board_id (b ∷ bs) = if same b board_id then bs else b ∷ without_one board_id bs

-- The calls of `acquire` and `release`, each release by a sync that runs, with the boards of those.
pub data Reach (low : Bool) : SyncRateLimiter → List String → Type 0 where
  start : Reach low (new_limiter low) []
  acquires :
      {l u : SyncRateLimiter} {bs : List String} (board_id : String)
      → Reach low l bs
      → acquire l board_id ≡ some u
      → Reach low u (board_id ∷ bs)
  releases :
      {l : SyncRateLimiter} {bs : List String} (board_id : String)
      → Reach low l bs
      → contains board_id bs ≡ true
      → Reach low (release l board_id) (without_one board_id bs)

abbrev IsShared : Bool → SyncRateLimiter → List String → Type 0
IsShared low l bs =
    (l.max_concurrent ≡ (if low then 2 else 5))
    × ((b : String) → slots l b + running b bs ≡ l.max_concurrent)

running-without_one :
    (board_id b : String) (bs : List String)
    → contains board_id bs ≡ true
    → running b (without_one board_id bs) + (if same board_id b then 1 else 0) ≡ running b bs
unfolding contains
running-without_one board_id b [] h = absurd (ground arith)
running-without_one board_id b (c ∷ bs) h = ground (arith, running-without_one board_id b bs)

slots-insert :
    (l : SyncRateLimiter) (board_id b : String) (n : ℕ)
    → slots (record l { semaphores = insert board_id n l.semaphores }) b
      ≡ (if same board_id b then n else slots l b)
unfolding slots
slots-insert l board_id b n = ground (arith, lookup-insert board_id b n l.semaphores)

abbrev taken : SyncRateLimiter → String → ℕ → SyncRateLimiter
taken l board_id n = record l { semaphores = insert board_id n l.semaphores }

acquire-taken :
    (l u : SyncRateLimiter) (board_id : String) (n : ℕ)
    → slots l board_id ≡ n
    → acquire l board_id ≡ some u
    → (m : ℕ) × (slots l board_id ≡ suc m) × (taken l board_id m ≡ u)
unfolding acquire
acquire-taken l u board_id zero e h = absurd (ground (arith, rw (e, acquire) at h))
acquire-taken l u board_id (suc m) e h = (m, e, ground (arith, rw (e, acquire) at h))

acquire-IsShared :
    (low : Bool) (l u : SyncRateLimiter) (bs : List String) (board_id : String)
    → acquire l board_id ≡ some u
    → IsShared low l bs
    → IsShared low u (board_id ∷ bs)
acquire-IsShared low l u bs board_id e h =
    let (m, had, now_taken) = acquire-taken l u board_id (slots l board_id) refl e in
    subst (λ v. IsShared low v (board_id ∷ bs)) now_taken
      (h.0, λ b. ground (arith, had, h.1 b, slots-insert l board_id b m))

release-IsShared :
    (low : Bool) (l : SyncRateLimiter) (bs : List String) (board_id : String)
    → contains board_id bs ≡ true
    → IsShared low l bs
    → IsShared low (release l board_id) (without_one board_id bs)
unfolding release slots
release-IsShared low l bs board_id e h = (
  h.0,
  λ b. ground (
    arith,
    h.1 b,
    h.1 board_id,
    running-without_one board_id b bs e,
    lookup-insert board_id b (slots l board_id + 1) l.semaphores,
  ),
)

Reach-IsShared :
    {low : Bool} {l : SyncRateLimiter} {bs : List String} → Reach low l bs → IsShared low l bs
unfolding new_limiter slots lookup
Reach-IsShared start = (refl, λ b. omega arith)
Reach-IsShared {low} (acquires {l} {u} {bs} board_id reach e) =
    acquire-IsShared low l u bs board_id e (Reach-IsShared reach)
Reach-IsShared {low} (releases {l} {bs} board_id reach e) =
    release-IsShared low l bs board_id e (Reach-IsShared reach)

-- If each release follows its acquire, at most five syncs of a board run at once, at most two where the
-- link is slow; and one more can start exactly if fewer run.
pub Reach-AtMost :
    (low : Bool) (l : SyncRateLimiter) (bs : List String) (board_id : String)
    → Reach low l bs
    → (running board_id bs ≤ (if low then 2 else 5))
      × ((acquire l board_id ≡ none) ↔ (running board_id bs ≡ (if low then 2 else 5)))
unfolding acquire
Reach-AtMost low l bs board_id reach =
    let (limit, shared) = Reach-IsShared reach in
    let here = shared board_id in
    (
      omega (arith, limit, here),
      (λ full. ground (arith, limit, here), λ all. ground (arith, limit, here)),
    )
