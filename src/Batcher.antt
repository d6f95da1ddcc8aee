-- ===== src/Batcher.antt =====
-- retiboard/db/batcher.py: `ChunkStateBatcher` collects rows for two tables and writes them together.
-- What the rows hold does not matter here. `flush` waits for the database with its rows taken out, and
-- other coroutines may queue more rows meanwhile: it is two steps, and the lock is held in between.
pub mod Complete
use retiboard.Base.{
  ℕ, ◌+◌, ◌-◌, leb, ltb, ◌==◌, if◌then◌else◌, Bool, true, ◌&&◌, String, List, [], ◌∷◌, ◌++◌, length,
  Option, none, some,
}
use retiboard.Base.Time.{seconds}

pub record ChunkStateBatcher (R P : Type 0) : Type 0 where
  pub board_id : String
  pub max_pending : ℕ
  pub max_interval_seconds : ℕ
  pub chunk_states : List R
  pub peer_penalties : List P
  pub last_flush_at : ℕ

module _ {R P : Type 0} where
  unfoldable pub new_batcher : ℕ → String → ChunkStateBatcher R P
  new_batcher now board_id = record {
    board_id = board_id;
    max_pending = 20;
    max_interval_seconds = seconds 2;
    chunk_states = [];
    peer_penalties = [];
    last_flush_at = now;
  }

  unfoldable pub queue_chunk_state : ChunkStateBatcher R P → R → ChunkStateBatcher R P
  queue_chunk_state b r = record b { chunk_states = b.chunk_states ++ r ∷ [] }

  unfoldable pub queue_peer_penalty : ChunkStateBatcher R P → P → ChunkStateBatcher R P
  queue_peer_penalty b p = record b { peer_penalties = b.peer_penalties ++ p ∷ [] }

  abbrev pub pending_count : ChunkStateBatcher R P → ℕ
  pending_count b = length b.chunk_states + length b.peer_penalties

  unfoldable pub should_flush : ℕ → ChunkStateBatcher R P → Bool
  should_flush now b =
      if leb b.max_pending (pending_count b)
      then true
      else ltb 0 (pending_count b) && leb b.max_interval_seconds (now - b.last_flush_at)

  -- The first half of `flush`: the rows that it writes, none if there are none.
  unfoldable pub take_pending :
      ChunkStateBatcher R P → ChunkStateBatcher R P × Option (List R × List P)
  take_pending b = if pending_count b == 0 then (b, none) else (
    record b { chunk_states = []; peer_penalties = [] },
    some (b.chunk_states, b.peer_penalties),
  )

  -- The second half, where the rows are committed, with what `flush` returns.
  unfoldable pub committed : ℕ → ChunkStateBatcher R P → List R × List P → ChunkStateBatcher R P × ℕ
  committed now b (states, penalties) =
      (record b { last_flush_at = now }, length states + length penalties)

  -- The handler of an exception of the database.
  unfoldable pub put_back : ChunkStateBatcher R P → List R × List P → ChunkStateBatcher R P
  put_back b (states, penalties) = record b {
    chunk_states = states ++ b.chunk_states;
    peer_penalties = penalties ++ b.peer_penalties;
  }
