-- ===== src/Tests/Rows.antt =====
-- A flush fails, while one more row is queued.
use retiboard.Base.{ℕ, ◌≡◌, refl, [], ◌∷◌, ◌++◌, some, none}
use retiboard.Batcher.{new_batcher, queue_chunk_state, take_pending, put_back}
use retiboard.Batcher.Complete.{
  World, taken_states, taken_penalties, Reach, init, next, queues_state, begins, fails,
  Reach-Complete,
}

abbrev empty_world : World ℕ ℕ
empty_world = record {
  batcher = new_batcher 0 "board";
  taken = none;
  stored = ([], []);
  queued = ([], []);
}

abbrev flushing : World ℕ ℕ
flushing = record empty_world {
  batcher = queue_chunk_state (new_batcher 0 "board") 8;
  taken = some (7 ∷ [], []);
  queued = (7 ∷ 8 ∷ [], []);
}

abbrev failed_flush : World ℕ ℕ
failed_flush = record flushing { batcher = put_back flushing.batcher (7 ∷ [], []); taken = none }

reached : Reach failed_flush
unfolding new_batcher queue_chunk_state take_pending
reached =
    next (next (next (next (init 0 "board") (queues_state 7)) (begins refl)) (queues_state 8))
      (fails (7 ∷ []) [] refl)

Reach-Complete_example :
    (failed_flush.stored.0 ++ (taken_states failed_flush.taken ++ failed_flush.batcher.chunk_states)
      ≡ failed_flush.queued.0)
    × (failed_flush.stored.1
          ++ (taken_penalties failed_flush.taken ++ failed_flush.batcher.peer_penalties)
        ≡ failed_flush.queued.1)
Reach-Complete_example = Reach-Complete failed_flush reached
