-- ===== src/Tests/Boards.antt =====
-- A board with two threads whose first posts have the same text, of which one is over; and the quota.
use retiboard.Base.{
  List, ℕ, text_key, text_discrete, ◌≤◌, ◌<◌, ◌≡◌, ◌⊎◌, refl, max, not, false, ◌&&◌, ◌||◌,
  if◌then◌else◌, Bool, String, same, [], ◌∷◌, ltb, length, filter_by, any_by, some, none,
}
use retiboard.Base.Int.{pos}
use retiboard.Base.Dict.{Dict, lookup}
use retiboard.Base.Sets.{contains}
use retiboard.Base.Sort.{IsSorted}
use retiboard.Store.Models.{Board, PostMetadata}
use retiboard.Store.Lifecycle.Rows.{DistinctIds}
use retiboard.Store.Threads.{active_thread_ids, get_thread_count, cull_ids}
use retiboard.Storage.{read_payload}
use retiboard.Pruning.Board.{BoardState, prune_board}
use retiboard.Pruning.Board.Blobs.{refers}
use retiboard.Pruning.Board.Pruned.{due, not_due, prune_board_lem}
use retiboard.Pruning.Board.Files.{prune_board-files}
use mathlib.Core.List.{Permᴰ}
use retiboard.Pruning.Quota.Candidates.{candidates}
use retiboard.Pruning.Quota.{
  limit_bytes, bytes_to_prune, get_all_active_threads_global, chosen_threads,
}
use retiboard.Pruning.Quota.Chosen.{IsShortest, chosen_threads_lem}
use retiboard.Pruning.Quota.Applied.{without_threads}
use retiboard.Pruning.Cycle.{prune_all_boards}
use retiboard.Pruning.Cycle.Pruned.{pruned_alone, prune_all_boards_lem}
use retiboard.Purge.{PurgeState}
use retiboard.Purge.Bans.{purge_identity}
use retiboard.Purge.Identity.Gone.{purge_identity_lem}
use retiboard.Tests.Posts.{opening, reply}

abbrev pub config : Board
config = record {
  board_id = "b";
  display_name = "";
  text_only = false;
  default_ttl_seconds = 100;
  bump_decay_rate = 60;
  max_active_threads_local = 1;
  pow_difficulty = pos 0;
  announce_version = 1;
  subscribed_at = 0;
}

abbrev over : PostMetadata
over = record opening { expiry_timestamp = 110 }

abbrev other : PostMetadata
other = record opening { post_id = "u"; thread_id = "u"; expiry_timestamp = 400 }

abbrev pub board : BoardState
board = record {
  board_config = some config;
  posts = over ∷ reply ∷ other ∷ [];
  content_control = [];
  transfers = record {
    chunk_manifests = [];
    chunk_manifest_entries = [];
    chunk_fetch_sessions = [];
    chunk_request_states = [];
    peer_chunk_availability = [];
  };
  files = record { payloads = ("c1", 7 ∷ []) ∷ ("c2", 8 ∷ []) ∷ []; chunk_cache = "c1" ∷ [] };
}

abbrev pruned : BoardState
pruned = (prune_board 200 [] board).0

distinct : DistinctIds board.posts
unfolding text_discrete
distinct = ((refl, (refl, tt)), ((refl, tt), (tt, tt)))

prune_board_lem_example :
    (pruned.posts
      ≡ filter_by
          (λ p. not (contains p.thread_id (cull_ids 1 [] (not_due 200 [] board.posts))))
          (not_due 200 [] board.posts))
    × ((t : String) → due 200 [] pruned.posts t ≡ false)
    × (get_thread_count pruned.posts
        ≤ max 1 (
            length
              (filter_by (λ t. contains t []) (active_thread_ids (not_due 200 [] board.posts)))))
    × (pruned.content_control ≡ board.content_control)
    × (pruned.board_config ≡ board.board_config)
prune_board_lem_example = prune_board_lem 200 [] config board refl distinct

prune_board-files_example : read_payload pruned.files "c1" ≡ (
    if any_by (λ p. refers "c1" p && due 200 [] board.posts p.thread_id) board.posts
      || any_by
          (λ p. refers "c1" p && contains p.thread_id (cull_ids 1 [] (not_due 200 [] board.posts)))
          (not_due 200 [] board.posts)
    then none
    else read_payload board.files "c1")
prune_board-files_example = prune_board-files 200 [] config board "c1" refl

abbrev boards : Dict String BoardState
boards = ("b", board) ∷ ("c", record board { posts = other ∷ [] }) ∷ []

-- The threads of the second board are pinned.
abbrev is_pinned : String → String → Bool
is_pinned board_id thread_id = same board_id "c"

chosen_threads_lem_example :
    ((2000000 ≤ limit_bytes 1) × (chosen_threads is_pinned 1 2000000 boards ≡ []))
    ⊎ ((limit_bytes 1 < 2000000)
        × Permᴰ (get_all_active_threads_global is_pinned boards) (candidates is_pinned boards)
        × IsSorted
            (λ t u. ltb t.last_activity u.last_activity)
            (get_all_active_threads_global is_pinned boards)
        × IsShortest
            (bytes_to_prune 1 2000000)
            (get_all_active_threads_global is_pinned boards)
            (chosen_threads is_pinned 1 2000000 boards))
chosen_threads_lem_example = chosen_threads_lem is_pinned 1 2000000 boards

found : lookup "b" boards ≡ some board
unfolding lookup text_discrete
found = refl

-- The author of a reply and of another thread is banned.
abbrev shared_board : BoardState
shared_board = record board { posts = record over { identity_hash = "else" } ∷ reply ∷ other ∷ [] }

abbrev purge_state : PurgeState
purge_state = record { board = shared_board; actions = []; targets = []; pending_sessions = [] }

purge_identity_lem_example :
    any_by
      (λ p. same p.identity_hash "someone")
      (purge_identity 300 "spam" purge_state 1 "someone").0.board.posts
    ≡ false
purge_identity_lem_example = purge_identity_lem 300 "spam" purge_state 1 "someone" distinct

abbrev pinned_ids : String → List String
pinned_ids board_id = []

abbrev bytes_on_disk : Dict String BoardState → ℕ
bytes_on_disk all = 2000000

prune_all_boards_lem_example :
    (s : BoardState) × (lookup "b" (prune_all_boards 200 pinned_ids 1 bytes_on_disk boards).0
      ≡ some s)
    × (s.posts
        ≡ without_threads
            (filter_by
              (λ t. same t.board_id "b")
              (chosen_threads
                (λ c t. contains t (pinned_ids c))
                1
                2000000
                (pruned_alone 200 pinned_ids boards)))
            (prune_board 200 [] board).0.posts)
    × ((prune_all_boards 200 pinned_ids 1 bytes_on_disk boards).1.boards_scanned ≡ length boards)
prune_all_boards_lem_example =
    prune_all_boards_lem 200 pinned_ids 1 bytes_on_disk boards "b" board found
