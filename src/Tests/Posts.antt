-- ===== src/Tests/Posts.antt =====
-- A thread of two posts, and a stored manifest.
use retiboard.Base.{
  text_key, nat_key, text_discrete, ℕ_discrete, codes_before, ◌+◌, ◌≤◌, ◌≡◌, refl, arith, true,
  false, List, [], ◌∷◌, map, some, none,
}
use mathlib.Core.List.{Permᴰ}
use retiboard.Base.Int.{pos}
use retiboard.Base.Sort.{sort_by, insert_sorted}
use retiboard.Store.Models.{PostMetadata, is_op}
use retiboard.Store.Lifecycle.{
  Lifecycle, ThreadRow, extend_thread_expiry, select_thread, row_before, op_row, bumped, replay,
  thread_lifecycle,
}
use retiboard.Store.Lifecycle.Rows.{DistinctIds}
use retiboard.Store.Lifecycle.Settled.{lifecycle_of, settled}
use retiboard.Store.Lifecycle.Arrival.{insert_all, insert_all_lem, insert_all-Permᴰ}
use retiboard.Store.Lifecycle.Bounds.{lifecycle_of_bounds}
use retiboard.Store.Lifecycle.Refill.{lifecycle_of_reply}
use retiboard.Store.Transfer.{TransferTables, save_chunk_manifest, load_chunk_manifest}
use retiboard.Store.Transfer.Saved.{EntriesOf, load-save_chunk_manifest}
use retiboard.Chunks.Models.{text, ChunkManifest, ChunkManifestEntry}

abbrev pub opening : PostMetadata
opening = record {
  post_id = "t";
  thread_id = "t";
  parent_id = "";
  timestamp = 10;
  expiry_timestamp = 0;
  bump_flag = false;
  content_hash = "c1";
  payload_size = 64;
  attachment_content_hash = "";
  attachment_payload_size = 0;
  has_attachments = false;
  attachment_count = 0;
  text_only = true;
  identity_hash = "someone";
  pow_nonce = "";
  public_key = "";
  encrypted_pings = [];
  edit_signature = "";
  thread_last_activity = 10;
  is_abandoned = false;
}

abbrev pub reply : PostMetadata
reply = record opening { post_id = "r"; timestamp = 40; bump_flag = true; content_hash = "c2" }

distinct_posts : DistinctIds (reply ∷ opening ∷ [])
unfolding text_discrete
distinct_posts = ((refl, tt), (tt, tt))

insert_all_lem_example :
    insert_all 100 60 [] (reply ∷ opening ∷ [])
    ≡ some (map (settled 100 60 (reply ∷ opening ∷ [])) (reply ∷ opening ∷ []))
insert_all_lem_example = insert_all_lem 100 60 (reply ∷ opening ∷ []) distinct_posts

insert_all-Permᴰ_example :
    (a : List PostMetadata) × (b : List PostMetadata) × (insert_all 100 60 [] (reply ∷ opening ∷ [])
      ≡ some a)
    × (insert_all 100 60 [] (opening ∷ reply ∷ []) ≡ some b)
    × Permᴰ a b
insert_all-Permᴰ_example = insert_all-Permᴰ 100 60 (Permᴰ.swap {l = []} refl refl) distinct_posts

abbrev before_reply : Lifecycle
before_reply = record { thread_last_activity = 10; thread_expiry = 110 }

abbrev after_reply : Lifecycle
after_reply = record { thread_last_activity = 40; thread_expiry = 140 }

opened : lifecycle_of 100 60 (opening ∷ []) "t" ≡ some before_reply
unfolding text_discrete thread_lifecycle op_row replay select_thread sort_by insert_sorted
opened = refl

answered : lifecycle_of 100 60 (reply ∷ opening ∷ []) "t" ≡ some after_reply
unfolding text_discrete ℕ_discrete codes_before thread_lifecycle op_row replay bumped
    extend_thread_expiry select_thread row_before sort_by insert_sorted
answered = refl

lifecycle_of_bounds_example :
    (op : ThreadRow) × (op_row "t" (sort_by row_before (select_thread "t" (reply ∷ opening ∷ [])))
      ≡ some op)
    × (op.timestamp + 100 ≤ after_reply.thread_expiry)
    × (after_reply.thread_expiry ≤ after_reply.thread_last_activity + 100)
    × (op.timestamp ≤ after_reply.thread_last_activity)
lifecycle_of_bounds_example =
    lifecycle_of_bounds 100 60 (reply ∷ opening ∷ []) "t" after_reply answered

distinct_reply : is_op reply ≡ false
unfolding text_discrete
distinct_reply = refl

lifecycle_of_reply_example :
    (m : Lifecycle) × (lifecycle_of 100 60 (opening ∷ reply ∷ []) "t" ≡ some m)
    × (before_reply.thread_expiry ≤ m.thread_expiry)
lifecycle_of_reply_example =
    lifecycle_of_reply 100 60 (opening ∷ []) reply before_reply distinct_posts distinct_reply opened

abbrev manifest : ChunkManifest
manifest = record {
  manifest_version = 1;
  board_id = "b";
  post_id = "t";
  thread_id = "t";
  blob_kind = text;
  blob_hash = "c1";
  blob_size = pos 6;
  chunk_size = 4;
  chunk_count = 2;
  merkle_root = none;
  created_at = 3;
}

abbrev entry_0 : ChunkManifestEntry
entry_0 = record {
  blob_hash = "c1";
  chunk_index = 0;
  offset = pos 0;
  size = pos 4;
  chunk_hash = "h0";
}

abbrev entry_1 : ChunkManifestEntry
entry_1 = record {
  blob_hash = "c1";
  chunk_index = 1;
  offset = pos 4;
  size = pos 2;
  chunk_hash = "h1";
}

abbrev stored : TransferTables
stored = record {
  chunk_manifests = record manifest { chunk_count = 1 } ∷ [];
  chunk_manifest_entries = entry_1 ∷ [];
  chunk_fetch_sessions = [];
  chunk_request_states = [];
  peer_chunk_availability = [];
}

ordered : EntriesOf "c1" (entry_0 ∷ entry_1 ∷ [])
unfolding text_discrete
ordered = (refl, (ground arith, tt), (refl, tt, tt))

load-save_chunk_manifest_example :
    (db : TransferTables) × (save_chunk_manifest stored manifest (entry_0 ∷ entry_1 ∷ []) ≡ some db)
    × (load_chunk_manifest db "c1" ≡ some (manifest, entry_0 ∷ entry_1 ∷ []))
load-save_chunk_manifest_example =
    load-save_chunk_manifest stored manifest (entry_0 ∷ entry_1 ∷ []) ordered
