-- ===== src/Gossip/Response.antt =====
-- `process_delta_response` of retiboard/sync/delta.py: the posts of another node's answer are offered to
-- the receiver one after another. An answer that does not parse is none. The clock is read once. The
-- receiver catches its exceptions and refuses the post, so that the loop goes on with the next one.
pub mod Twice
use retiboard.Base.{ℕ, ◌+◌, if◌then◌else◌, Bool, true, String, List, [], ◌∷◌, Option, none, some}
use retiboard.Pruning.Board.{BoardState}
use retiboard.Receiver.{MetaDict, PowFields, done, rejected, handle_incoming_metadata}

module _ (canonicalize_metadata : PowFields → String) (compute_pow_hash : String → String → ℕ)
    (max_payload_size : ℕ) (source_hash : String) (now : ℕ) where
  -- The loop over the records, with the number that has been stored.
  unfoldable pub process_records : BoardState → List MetaDict → (stored : ℕ) → BoardState × ℕ
  process_records s [] stored = (s, stored)
  process_records s (d ∷ metadata_list) stored =
      elim (handle_incoming_metadata canonicalize_metadata compute_pow_hash max_payload_size true s
        d source_hash now) [
          | done (s', post) ↦ process_records s' metadata_list (stored + 1)
          | rejected r ↦ process_records s metadata_list stored
        ]

  unfoldable pub process_delta_response :
      (subscribed : Bool) → BoardState → Option (List MetaDict) → BoardState × ℕ
  unfolding process_records
  process_delta_response subscribed s none = (s, 0)
  process_delta_response subscribed s (some metadata_list) =
      if subscribed then process_records s metadata_list 0 else (s, 0)
