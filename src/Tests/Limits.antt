-- ===== src/Tests/Limits.antt =====
-- One board over a slow link.
use retiboard.Base.{text_key, ◌≤◌, ◌≡◌, ◌↔◌, refl, true, if◌then◌else◌, [], ◌∷◌, none}
use retiboard.Base.Dict.{lookup, insert}
use retiboard.Limiter.{SyncRateLimiter, new_limiter, slots, acquire}
use retiboard.Limiter.Slots.{Reach, start, acquires, running, Reach-AtMost}

abbrev one_running : SyncRateLimiter
one_running = record {
  is_low_bandwidth = true;
  max_concurrent = 2;
  semaphores = ("board", 1) ∷ [];
  backoff = [];
  failures = [];
}

reached : Reach true one_running ("board" ∷ [])
unfolding new_limiter acquire slots lookup insert
reached = acquires "board" start refl

Reach-AtMost_example :
    (running "board" ("board" ∷ []) ≤ (if true then 2 else 5))
    × ((acquire one_running "board" ≡ none)
        ↔ (running "board" ("board" ∷ []) ≡ (if true then 2 else 5)))
Reach-AtMost_example = Reach-AtMost true one_running ("board" ∷ []) "board" reached
