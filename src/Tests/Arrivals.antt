-- ===== src/Tests/Arrivals.antt =====
-- A post arrives, arrives again, and its thread is purged; a peer tells its chunks.
use retiboard.Base.{
  text_key, nat_key, text_discrete, ℕ_discrete, ℕ, ◌<◌, ◌≡◌, refl, arith, true, false, ◌||◌, ◌==◌,
  String, truthy, List, [], ◌∷◌, length, any_by, All, some, none,
}
use retiboard.Base.Int.{ℤ, pos, negsuc}
use retiboard.Base.Sort.{sort_by, insert_sorted}
use retiboard.Base.Sets.{contains, add}
use retiboard.Store.Models.{Board, PostMetadata}
use retiboard.Store.Lifecycle.{
  select_thread, op_row, replay, thread_lifecycle, updated_row, recompute_in, post_exists, get_post,
  insert_post, read_back,
}
use retiboard.Moderation.Controls.{has_control, set_control}
use retiboard.Moderation.Policy.{
  should_reject_post, is_identity_blocked, is_thread_purged, is_post_purged,
}
use retiboard.Pow.{verify_pow}
use retiboard.Pruning.Board.{BoardState}
use retiboard.Receiver.{
  absent, malformed, number, MetaDict, get_or, duplicate, too_old, malformed_sizes, done, rejected,
  PowFields, Sizes, pow_fields, stamp, checked_sizes, built, validated, handle_incoming_metadata,
}
use retiboard.Receiver.Accepted.{IsAdmitted, handle_incoming_metadata_lem}
use retiboard.Receiver.Stored.{handle_incoming_metadata-stores}
use retiboard.Receiver.Redelivery.{handle_incoming_metadata-twice}
use retiboard.Purge.{PurgeState, purge_thread}
use retiboard.Purge.Thread.{Incoming, in_thread, receive_all, receive_all-purge_thread}
use retiboard.Swarm.State.{
  hybrid, SwarmFetcher, new_fetcher, new_chunks, update_all, update_peer_availability,
  peer_has_chunk,
}
use retiboard.Offers.{index_set, compress_chunk_indexes}
use retiboard.Offers.Told.{sent, peer_has_chunk-compress_chunk_indexes}
use retiboard.Gossip.Response.{process_delta_response}
use retiboard.Gossip.Response.Twice.{process_delta_response-twice}
use retiboard.Tests.Boards.{config, board}

abbrev meta : MetaDict
meta = record {
  post_id = some "v";
  thread_id = some "v";
  parent_id = none;
  timestamp = some 500;
  bump_flag = none;
  content_hash = some "c3";
  payload_size = number (pos 12);
  attachment_content_hash = none;
  attachment_payload_size = absent;
  has_attachments = none;
  attachment_count = absent;
  text_only = none;
  identity_hash = none;
  pow_nonce = none;
  public_key = none;
  encrypted_pings = none;
  edit_signature = none;
  thread_last_activity = none;
}

abbrev empty_board : BoardState
empty_board = record board { posts = [] }

abbrev canonical : PowFields → String
canonical fields = fields.post_id

abbrev no_hash : String → String → ℕ
no_hash text nonce = 0

-- The row as it is stored: the node that has sent it is its author, and its time runs from its own
-- timestamp.
abbrev row : PostMetadata
row = record {
  post_id = "v";
  thread_id = "v";
  parent_id = "";
  timestamp = 500;
  expiry_timestamp = 600;
  bump_flag = false;
  content_hash = "c3";
  payload_size = 12;
  attachment_content_hash = "";
  attachment_payload_size = 0;
  has_attachments = false;
  attachment_count = 0;
  text_only = false;
  identity_hash = "sender";
  pow_nonce = "";
  public_key = "";
  encrypted_pings = [];
  edit_signature = "";
  thread_last_activity = 500;
  is_abandoned = false;
}

abbrev with_row : BoardState
with_row = record empty_board { posts = row ∷ [] }

accepted :
    handle_incoming_metadata canonical no_hash 100 true empty_board meta "sender" 550
    ≡ done (with_row, row)
unfolding handle_incoming_metadata validated stamp checked_sizes built verify_pow post_exists
    insert_post recompute_in thread_lifecycle op_row replay select_thread updated_row sort_by
    insert_sorted read_back get_post should_reject_post is_identity_blocked is_thread_purged
    is_post_purged has_control any_by text_discrete
accepted = refl

too_late :
    handle_incoming_metadata canonical no_hash 100 true empty_board meta "sender" 601
    ≡ rejected too_old
unfolding handle_incoming_metadata validated verify_pow stamp post_exists text_discrete any_by
too_late = refl

malformed_count :
    handle_incoming_metadata canonical no_hash 100 true empty_board
      (record meta { attachment_count = malformed })
      "sender"
      550
    ≡ rejected malformed_sizes
unfolding handle_incoming_metadata validated verify_pow stamp checked_sizes post_exists
    text_discrete any_by
malformed_count = refl

handle_incoming_metadata_lem_example :
    (c : Board) × (p : PostMetadata) × (empty_board.board_config ≡ some c)
    × (true ≡ true)
    × (truthy p.post_id ≡ true)
    × (p.post_id ≡ get_or meta.post_id "")
    × IsAdmitted canonical no_hash 100 empty_board meta "sender" c 550 p
    × (insert_post empty_board.board_config empty_board.posts p
          (some c.default_ttl_seconds)
          (some c.bump_decay_rate)
        ≡ some with_row.posts)
    × (with_row ≡ record empty_board { posts = with_row.posts })
    × (row ≡ read_back with_row.posts p)
handle_incoming_metadata_lem_example =
    handle_incoming_metadata_lem canonical no_hash 100 true empty_board meta "sender" 550 with_row
      row accepted

named : truthy "v" ≡ true
unfolding text_discrete
named = refl

abbrev sizes : Sizes
sizes = record { payload_size = 12; attachment_payload_size = 0; attachment_count = 0 }

new_post : post_exists "v" empty_board.posts ≡ false
unfolding post_exists any_by
new_post = refl

sized : checked_sizes (stamp meta "sender") 100 ≡ done sizes
unfolding checked_sizes stamp text_discrete
sized = refl

shaped : built (stamp meta "sender") config 550 "v" sizes ≡ done row
unfolding built stamp text_discrete
shaped = refl

allowed : (should_reject_post empty_board.content_control row).allowed ≡ true
unfolding should_reject_post is_identity_blocked is_thread_purged is_post_purged has_control any_by
    text_discrete
allowed = refl

worked :
    verify_pow canonical no_hash (pow_fields (stamp meta "sender")) "" config.pow_difficulty ≡ true
unfolding verify_pow
worked = refl

handle_incoming_metadata-stores_example :
    (s : BoardState) × (stored : PostMetadata) × (handle_incoming_metadata canonical no_hash 100
        true empty_board meta "sender" 550
      ≡ done (s, stored))
    × (post_exists "v" s.posts ≡ true)
    × ((x : String) → post_exists x empty_board.posts ≡ true → post_exists x s.posts ≡ true)
handle_incoming_metadata-stores_example =
    handle_incoming_metadata-stores canonical no_hash 100 empty_board meta "sender" 550 config sizes
      row refl named new_post worked refl (omega arith) (omega arith) sized shaped allowed

-- A later state, with a rule and no files.
abbrev pruned_later : BoardState
pruned_later = record with_row {
  content_control = set_control 800 [] "identity" "other" "block" "";
  files = record { payloads = []; chunk_cache = [] };
}

still_there : post_exists "v" pruned_later.posts ≡ true
unfolding post_exists any_by text_discrete
still_there = refl

handle_incoming_metadata-twice_example :
    (post_exists (get_or (record meta { payload_size = malformed }).post_id "") with_row.posts
      ≡ true)
    × (handle_incoming_metadata canonical no_hash 100 true pruned_later
          (record meta { payload_size = malformed })
          "other"
          900
        ≡ rejected duplicate)
handle_incoming_metadata-twice_example =
    handle_incoming_metadata-twice canonical no_hash 100 empty_board with_row pruned_later config
      meta (record meta { payload_size = malformed }) "sender" "other" 550 900 row accepted refl
      refl still_there

abbrev purge_state : PurgeState
purge_state = record { board = with_row; actions = []; targets = []; pending_sessions = [] }

abbrev again : Incoming
again = record { subscribed = true; meta_dict = meta; source_hash = "sender"; now = 560 }

receive_all-purge_thread_example :
    in_thread "v"
      (receive_all canonical no_hash 100
        (purge_thread 555 "" purge_state "v").0.board
        (again ∷ again ∷ [])).posts
    ≡ false
receive_all-purge_thread_example =
    receive_all-purge_thread canonical no_hash 100 555 "" purge_state "v" (again ∷ again ∷ []) named

abbrev fetcher : SwarmFetcher
fetcher = new_fetcher ("p" ∷ []) 4 none none 6 hybrid [] false

abbrev stored : List ℤ
stored = pos 3 ∷ negsuc 0 ∷ pos 0 ∷ pos 1 ∷ []

within : All (λ j. j < length fetcher.chunks) (index_set stored)
unfolding new_fetcher update_all new_chunks index_set add contains ℕ_discrete
within = (ground arith, (ground arith, (ground arith, tt)))

peer_has_chunk-compress_chunk_indexes_example :
    peer_has_chunk
      (update_peer_availability fetcher "p" (sent (compress_chunk_indexes stored)))
      "p"
      2
    ≡ (length (index_set stored) == 0 || contains 2 (index_set stored))
peer_has_chunk-compress_chunk_indexes_example =
    peer_has_chunk-compress_chunk_indexes fetcher "p" stored 2 within

process_delta_response-twice_example :
    process_delta_response canonical no_hash 100 "sender" 550 true
      (process_delta_response canonical no_hash 100 "sender" 550 true empty_board
        (some (meta ∷ record meta { timestamp = some 0; post_id = some "w" } ∷ []))).0
      (some (meta ∷ record meta { timestamp = some 0; post_id = some "w" } ∷ []))
    ≡ (
      (process_delta_response canonical no_hash 100 "sender" 550 true empty_board
          (some (meta ∷ record meta { timestamp = some 0; post_id = some "w" } ∷ []))).0,
      0,
    )
process_delta_response-twice_example =
    process_delta_response-twice canonical no_hash 100 "sender" 550 true empty_board
      (some (meta ∷ record meta { timestamp = some 0; post_id = some "w" } ∷ []))
