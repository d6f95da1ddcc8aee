-- ===== src/Base/Time.antt =====
-- Points in time and spans, in microseconds: `time.time()` is taken as a whole number of them.
use Prim.Native.Nat.{ℕ, ◌*◌}

abbrev pub seconds : ℕ → ℕ
seconds n = n * 1000000
