-- ===== src/Gossip/Delta.antt =====
-- `build_delta_response`: the posts of a thread that are newer than a time, in batches.
pub mod Batch
use retiboard.Base.{
  ℕ, ◌+◌, leb, ltb, if◌then◌else◌, Bool, true, false, not, ◌&&◌, String, same, List, [], ◌∷◌, ◌++◌,
  length, filter_by,
}
use retiboard.Base.Sort.{sort_by}
use retiboard.Moderation.Controls.{Control}
use retiboard.Store.Models.{PostMetadata}
use retiboard.Moderation.Policy.{should_replicate_post}

abbrev pub delta_max_records : ℕ
delta_max_records = 50

abbrev pub delta_max_bytes : ℕ
delta_max_bytes = 16384

pub record DeltaResponse : Type 0 where
  pub metadata : List PostMetadata
  pub more : Bool

-- The `SELECT … WHERE … ORDER BY timestamp ASC`.
unfoldable pub newer_posts : List PostMetadata → String → ℕ → List PostMetadata
newer_posts posts thread_id since_timestamp =
    sort_by (λ p q. ltb p.timestamp q.timestamp)
      (filter_by
        (λ p. same p.thread_id thread_id && ltb since_timestamp p.timestamp && not p.is_abandoned)
        posts)

module _ (record_size : PostMetadata → ℕ) (db : List Control) where
  -- The loop over the rows, with what it has put together and the size of that.
  unfoldable pub batch_from : List PostMetadata → List PostMetadata → ℕ → DeltaResponse
  batch_from [] metadata_list total_bytes = record { metadata = metadata_list; more = false }
  batch_from (post ∷ rows) metadata_list total_bytes =
      let skipped = batch_from rows metadata_list total_bytes in
      let rest = batch_from rows (metadata_list ++ post ∷ []) (total_bytes + record_size post) in
      let stopped : DeltaResponse = record { metadata = metadata_list; more = true } in
      if not (should_replicate_post db post).allowed
      then skipped
      else if leb delta_max_records (length metadata_list)
      then stopped
      else if ltb delta_max_bytes (total_bytes + record_size post)
      then stopped
      else rest

  -- For a board that is subscribed; any other gets an empty answer.
  unfoldable pub build_delta_response :
      (subscribed : Bool) → List PostMetadata → (thread_id : String) → ℕ → DeltaResponse
  unfolding batch_from newer_posts
  build_delta_response subscribed posts thread_id since_timestamp =
      if not subscribed
      then record { metadata = []; more = false }
      else batch_from (newer_posts posts thread_id since_timestamp) [] 0
