-- ===== src/Limiter/Pauses.antt =====
-- How long a peer is left alone after a failure.
use retiboard.Base.{leb, text_key, ℕ, suc, ◌+◌, ◌≤◌, ◌<◌, ◌≡◌, ◌≢◌, arith, true, false}
use retiboard.Base.Int.{ℤ, pos, negsuc}
use retiboard.Base.Dict.{lookup-insert, lookup-erase}
use retiboard.Limiter.{
  board_peer_key, BoardPeer, SyncRateLimiter, can_sync_peer, failure_count, pause, moved,
  record_failure, record_success,
}

abbrev magnitude : ℤ → ℕ
magnitude (pos k) = k
magnitude (negsuc k) = suc k

moved-near :
    (n m : ℕ) (jitter : ℤ)
    → magnitude jitter ≤ m
    → (n ≤ moved n jitter + m) × (moved n jitter ≤ n + m)
moved-near n m (pos k) h = (omega (arith, h), omega (arith, h))
moved-near n m (negsuc k) h = (omega (arith, h), omega (arith, h))

-- With fewer than 1024 failures before, a failure is counted, and the peer may be asked again from a
-- time on that lies behind the failure by the pause of that count, up to the random part.
record_failure_lem :
    (now t m : ℕ) (jitter : ℤ) (l : SyncRateLimiter) (key : BoardPeer)
    → failure_count l key < 1024
    → magnitude jitter ≤ m
    → let r = record_failure now jitter l key in
      let n = failure_count l key + 1 in
      (r.1 ≡ false)
      × (failure_count r.0 key ≡ n)
      × (until : ℕ) × (can_sync_peer t r.0 key ≡ leb until t)
      × (now + pause n ≤ until + m)
      × (until ≤ now + pause n + m)
unfolding record_failure can_sync_peer failure_count
record_failure_lem now t m jitter l key few small =
    let n : ℕ = failure_count l key + 1 in
    let near = moved-near (pause n) m jitter small in
    let count = lookup-insert key key n l.failures in
    let written = lookup-insert key key (now + moved (pause n) jitter) l.backoff in
    (
      ground arith,
      ground (arith, count),
      now + moved (pause n) jitter,
      ground (arith, written),
      omega (arith, near.0),
      omega (arith, near.1),
    )

-- From the 1024th failure in a row on, the next one is counted, but the call raises OverflowError and
-- the pause stays that of an earlier failure. A success forgets the failures and ends the pause. Neither
-- changes what holds for another peer or board.
record_failure_overflow :
    (now t : ℕ) (jitter : ℤ) (l : SyncRateLimiter) (key other : BoardPeer)
    → 1024 ≤ failure_count l key
    → key ≢ other
    → let r = record_failure now jitter l key in
      ((r.1 ≡ true) × (can_sync_peer t r.0 key ≡ can_sync_peer t l key))
      × ((failure_count (record_success l key) key ≡ 0)
          × (can_sync_peer t (record_success l key) key ≡ true))
      × ((can_sync_peer t r.0 other ≡ can_sync_peer t l other)
          × (can_sync_peer t (record_success l key) other ≡ can_sync_peer t l other))
unfolding record_failure record_success can_sync_peer failure_count
record_failure_overflow now t jitter l key other many apart = (
  (ground arith, ground arith),
  (ground (arith, lookup-erase key key l.failures), ground (arith, lookup-erase key key l.backoff)),
  (ground arith, ground (arith, lookup-erase key other l.backoff)),
)
