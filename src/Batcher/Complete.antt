-- ===== src/Batcher/Complete.antt =====
-- The rows of `ChunkStateBatcher` (retiboard/db/batcher.py): those that wait, that a flush has taken, and
-- that are in the database.
use retiboard.Base.{
  ℕ, ◌≡◌, ◌∙◌, sym, ap, refl, inl, inr, ◌==◌, Bool-cases, String, List, [], ◌∷◌, ◌++◌, append-nil,
  append_assoc, Option, none, some,
}
use retiboard.Batcher.{
  ChunkStateBatcher, new_batcher, queue_chunk_state, queue_peer_penalty, pending_count,
  take_pending, committed, put_back,
}

-- A batcher with the rows that a flush has taken out, those that are in the database, and all that
-- were queued.
pub record World (R P : Type 0) : Type 0 where
  pub batcher : ChunkStateBatcher R P
  pub taken : Option (List R × List P)
  pub stored : List R × List P
  pub queued : List R × List P

module _ {R P : Type 0} where
  abbrev pub taken_states : Option (List R × List P) → List R
  taken_states none = []
  taken_states (some (states, penalties)) = states

  abbrev pub taken_penalties : Option (List R × List P) → List P
  taken_penalties none = []
  taken_penalties (some (states, penalties)) = penalties

-- A flush begins only while no other runs; it ends by a commit, or by an exception.
pub data Step {R P : Type 0} (w : World R P) : World R P → Type 0 where
  queues_state :
      (r : R)
      → Step w (record w {
        batcher = queue_chunk_state w.batcher r;
        queued = (w.queued.0 ++ r ∷ [], w.queued.1);
      })
  queues_penalty :
      (p : P)
      → Step w (record w {
        batcher = queue_peer_penalty w.batcher p;
        queued = (w.queued.0, w.queued.1 ++ p ∷ []);
      })
  begins :
      w.taken ≡ none
      → Step w
          (record w { batcher = (take_pending w.batcher).0; taken = (take_pending w.batcher).1 })
  commits :
      (now : ℕ) (states : List R) (penalties : List P)
      → w.taken ≡ some (states, penalties)
      → Step w (record w {
        batcher = (committed now w.batcher (states, penalties)).0;
        taken = none;
        stored = (w.stored.0 ++ states, w.stored.1 ++ penalties);
      })
  fails :
      (states : List R) (penalties : List P)
      → w.taken ≡ some (states, penalties)
      → Step w (record w { batcher = put_back w.batcher (states, penalties); taken = none })

pub data Reach {R P : Type 0} : World R P → Type 0 where
  init :
      (now : ℕ) (board_id : String)
      → Reach (record {
        batcher = new_batcher now board_id;
        taken = none;
        stored = ([], []);
        queued = ([], []);
      })
  next : {w v : World R P} → Reach w → Step w v → Reach v

append_last {ℓ} :
    {A : Type ℓ} (xs ys zs all : List A) (a : A)
    → xs ++ (ys ++ zs) ≡ all
    → xs ++ (ys ++ (zs ++ a ∷ [])) ≡ all ++ a ∷ []
append_last xs ys zs all a e =
    ap (λ r. xs ++ r) (sym (append_assoc ys zs (a ∷ [])))
    ∙ sym (append_assoc xs (ys ++ zs) (a ∷ []))
    ∙ ap (λ r. r ++ a ∷ []) e

module _ {R P : Type 0} where
  abbrev IsComplete : World R P → Type 0
  IsComplete w =
      (w.stored.0 ++ (taken_states w.taken ++ w.batcher.chunk_states) ≡ w.queued.0)
      × (w.stored.1 ++ (taken_penalties w.taken ++ w.batcher.peer_penalties) ≡ w.queued.1)

  idle-IsComplete :
      (w : World R P)
      → w.taken ≡ none
      → IsComplete w
      → (w.stored.0 ++ w.batcher.chunk_states ≡ w.queued.0)
        × (w.stored.1 ++ w.batcher.peer_penalties ≡ w.queued.1)
  idle-IsComplete w idle h = (
    ap (λ t. w.stored.0 ++ (taken_states t ++ w.batcher.chunk_states)) (sym idle) ∙ h.0,
    ap (λ t. w.stored.1 ++ (taken_penalties t ++ w.batcher.peer_penalties)) (sym idle) ∙ h.1,
  )

  begins-IsComplete :
      (w : World R P)
      → w.taken ≡ none
      → IsComplete w
      → IsComplete
          (record w { batcher = (take_pending w.batcher).0; taken = (take_pending w.batcher).1 })
  unfolding take_pending
  begins-IsComplete w idle h =
      let (states, penalties) = idle-IsComplete w idle h in
      elim (Bool-cases (pending_count w.batcher == 0)) [
        | inl e ↦ rw e (states, penalties)
        | inr e ↦ rw e (
          ap (λ r. w.stored.0 ++ r) (append-nil w.batcher.chunk_states) ∙ states,
          ap (λ r. w.stored.1 ++ r) (append-nil w.batcher.peer_penalties) ∙ penalties,
        )
      ]

  Step-IsComplete : {w v : World R P} → Step w v → IsComplete w → IsComplete v
  unfolding queue_chunk_state queue_peer_penalty committed put_back
  Step-IsComplete {w} (queues_state r) h =
      (append_last w.stored.0 (taken_states w.taken) w.batcher.chunk_states w.queued.0 r h.0, h.1)
  Step-IsComplete {w} (queues_penalty p) h = (
    h.0,
    append_last w.stored.1 (taken_penalties w.taken) w.batcher.peer_penalties w.queued.1 p h.1,
  )
  Step-IsComplete {w} (begins idle) h = begins-IsComplete w idle h
  Step-IsComplete {w} (commits now states penalties e) h = (
    append_assoc w.stored.0 states w.batcher.chunk_states
        ∙ ap (λ t. w.stored.0 ++ (taken_states t ++ w.batcher.chunk_states)) (sym e)
        ∙ h.0,
    append_assoc w.stored.1 penalties w.batcher.peer_penalties
        ∙ ap (λ t. w.stored.1 ++ (taken_penalties t ++ w.batcher.peer_penalties)) (sym e)
        ∙ h.1,
  )
  Step-IsComplete {w} (fails states penalties e) h = (
    ap (λ t. w.stored.0 ++ (taken_states t ++ w.batcher.chunk_states)) (sym e) ∙ h.0,
    ap (λ t. w.stored.1 ++ (taken_penalties t ++ w.batcher.peer_penalties)) (sym e) ∙ h.1,
  )

  Reach-IsComplete : {w : World R P} → Reach w → IsComplete w
  unfolding new_batcher
  Reach-IsComplete (init now board_id) = (refl, refl)
  Reach-IsComplete (next reach step) = Step-IsComplete step (Reach-IsComplete reach)

-- Whatever is queued while flushes run and fail or succeed: the rows of each table that are committed,
-- then those that a flush has taken, then those that wait, are all that were queued, each once and in
-- that order.
pub Reach-Complete :
    {R P : Type 0} (w : World R P)
    → Reach w
    → (w.stored.0 ++ (taken_states w.taken ++ w.batcher.chunk_states) ≡ w.queued.0)
      × (w.stored.1 ++ (taken_penalties w.taken ++ w.batcher.peer_penalties) ≡ w.queued.1)
Reach-Complete w reach = Reach-IsComplete reach
