-- ===== src/Peers/Paths.antt =====
-- What failed and successful deliveries do to the path of a peer.
use retiboard.Base.{
  zero, ◌*◌, ◌≤◌, ◌<◌, ◌^◌, suc, length, text_key, ℕ, ◌+◌, ◌≡◌, leb, if◌then◌else◌, arith, String,
  List, [], ◌∷◌, some,
}
use native.Mathlib.Numerals.{unary_clauses}
use retiboard.Base.Time.{seconds}
use retiboard.Base.Dict.{lookup, lookup-insert_self}
use retiboard.Peers.Info.{base_delay, next_retry_delay, stale, unreachable, PeerInfo}
use retiboard.Peers.Tracker.{
  succeeded, record_delivery_success, PeerTracker, update, failed, record_delivery_failure,
}

module _ {I : Type 0} where
  -- Failed deliveries in a row, each with its time and with what the random part of its delay was.
  abbrev fail_all : List (ℕ × ℕ) → PeerTracker I → String → PeerTracker I
  fail_all [] t hash = t
  fail_all ((now, jitter) ∷ events) t hash =
      fail_all events (record_delivery_failure now jitter t hash) hash

  fail_one :
      (now jitter : ℕ) (t : PeerTracker I) (hash : String) (p : PeerInfo I)
      → lookup hash t.peers ≡ some p
      → lookup hash (record_delivery_failure now jitter t hash).peers ≡ some (failed now jitter p)
  unfolding record_delivery_failure update
  fail_one now jitter t hash p e =
      rw (e, update) (lookup-insert_self hash (failed now jitter p) t.peers)

  abbrev pub Failed : ℕ → PeerInfo I → PeerInfo I → Type 0
  Failed n p q =
      (q.retry_count ≡ p.retry_count + n)
      × (q.delivery_failures ≡ p.delivery_failures + n)
      × (q.path_state ≡ (if leb 5 (p.retry_count + n) then unreachable else stale))

  failed-Failed : (now jitter : ℕ) (p : PeerInfo I) → Failed 1 p (failed now jitter p)
  unfolding failed
  failed-Failed now jitter p = ground arith

  fail_more : (n : ℕ) (p q r : PeerInfo I) → Failed 1 p q → Failed n q r → Failed (suc n) p r
  fail_more n p q r first rest = ground arith

  fail_all-Failed :
      (events : List (ℕ × ℕ)) (e : ℕ × ℕ) (t : PeerTracker I) (hash : String) (p : PeerInfo I)
      → lookup hash t.peers ≡ some p
      → (q : PeerInfo I) × (lookup hash (fail_all (e ∷ events) t hash).peers ≡ some q)
        × Failed (length (e ∷ events)) p q
  fail_all-Failed [] (now, jitter) t hash p known =
      (failed now jitter p, fail_one now jitter t hash p known, failed-Failed now jitter p)
  fail_all-Failed (e ∷ events) (now, jitter) t hash p known =
      let (q, found, more) =
        fail_all-Failed events e (record_delivery_failure now jitter t hash) hash
          (failed now jitter p) (fail_one now jitter t hash p known) in
      (
        q,
        found,
        fail_more (length (e ∷ events)) p (failed now jitter p) q (failed-Failed now jitter p) more,
      )

  from_success :
      (n now : ℕ) (p q : PeerInfo I)
      → Failed n (succeeded now p) q
      → (q.retry_count ≡ n)
        × (q.delivery_failures ≡ p.delivery_failures + n)
        × (q.path_state ≡ (if leb 5 n then unreachable else stale))
  unfolding succeeded
  from_success n now p q counts = ground arith

  -- Failed deliveries in a row to a known peer, right after a successful one: each is counted, in the
  -- run and in all, and the peer is unreachable from the fifth on and stale before.
  fail_all_lem :
      (events : List (ℕ × ℕ)) (e : ℕ × ℕ) (now : ℕ) (t : PeerTracker I) (hash : String)
      (p : PeerInfo I)
      → lookup hash t.peers ≡ some p
      → (q : PeerInfo I) × (lookup hash
            (fail_all (e ∷ events) (record_delivery_success now t hash) hash).peers
          ≡ some q)
        × (q.retry_count ≡ length (e ∷ events))
        × (q.delivery_failures ≡ p.delivery_failures + length (e ∷ events))
        × (q.path_state ≡ (if leb 5 (length (e ∷ events)) then unreachable else stale))
  unfolding record_delivery_success update succeeded
  fail_all_lem events e now t hash p known =
      let (q, found, counts) =
        fail_all-Failed events e (record_delivery_success now t hash) hash (succeeded now p)
          (rw (known, update) (lookup-insert_self hash (succeeded now p) t.peers)) in
      let exact = from_success (length (e ∷ events)) now p q counts in
      (q, found, exact.0, exact.1, exact.2)

power_positive : (n : ℕ) → 1 ≤ 2 ^ n
power_positive zero = omega arith
power_positive (suc n) = simp unary_clauses (omega (arith, power_positive n))

two_power : (n : ℕ) → 2 ^ suc n ≡ 2 * 2 ^ n
two_power n = simp unary_clauses (omega arith)

-- From the first retry on, with a random part of at most a quarter of the delay, the delay before the
-- next attempt is at least one minute and at most twelve and a half minutes.
next_retry_delay_bounds :
    (retry_count jitter : ℕ)
    → 0 < retry_count
    → jitter * 4 ≤ base_delay retry_count
    → (seconds 60 ≤ next_retry_delay retry_count jitter)
      × (next_retry_delay retry_count jitter ≤ seconds 750)
unfolding next_retry_delay base_delay
next_retry_delay_bounds zero jitter pos small = absurd (omega arith)
next_retry_delay_bounds (suc n) jitter pos small =
    omega (arith, small, power_positive n, two_power n)
