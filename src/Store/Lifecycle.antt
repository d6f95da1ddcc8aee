-- ===== src/Store/Lifecycle.antt =====
-- How long a thread lives: `_extend_thread_expiry`, `_recompute_thread_lifecycle` and `insert_post` of
-- retiboard/db/database.py. Times are Unix seconds.
pub mod Rows
pub mod Settled
pub mod Arrival
pub mod Bounds
pub mod Refill
pub mod Inserted
use retiboard.Base.{
  ℕ, ◌+◌, min, max, ltb, ◌==◌, if◌then◌else◌, Bool, not, ◌&&◌, ◌||◌, String, same, text_before,
  List, [], ◌∷◌, ◌++◌, map, any_by, Option, none, some,
}
use retiboard.Base.Sort.{sort_by}
use retiboard.Store.Models.{Board, PostMetadata, is_op}

abbrev pub default_ttl_seconds : ℕ
default_ttl_seconds = 43200

abbrev pub default_bump_decay_rate : ℕ
default_bump_decay_rate = 3600

-- One refill, which never leaves more than a full time to live from the event on.
unfoldable pub extend_thread_expiry :
    (current_expiry event_timestamp thread_start_ttl thread_bump_ttl : ℕ) → ℕ
extend_thread_expiry current_expiry event_timestamp thread_start_ttl thread_bump_ttl =
    min (max current_expiry event_timestamp + thread_bump_ttl) (event_timestamp + thread_start_ttl)

-- The columns that the replay of a thread selects.
pub record ThreadRow : Type 0 where
  pub post_id : String
  pub timestamp : ℕ
  pub bump_flag : Bool

abbrev pub row_of : PostMetadata → ThreadRow
row_of p = record { post_id = p.post_id; timestamp = p.timestamp; bump_flag = p.bump_flag }

unfoldable pub select_thread : String → List PostMetadata → List ThreadRow
select_thread thread_id [] = []
select_thread thread_id (p ∷ posts) =
    if same p.thread_id thread_id
    then row_of p ∷ select_thread thread_id posts
    else select_thread thread_id posts

-- `ORDER BY timestamp ASC, post_id ASC`
unfoldable pub row_before : ThreadRow → ThreadRow → Bool
row_before r s =
    ltb r.timestamp s.timestamp || (r.timestamp == s.timestamp && text_before r.post_id s.post_id)

-- `next((row for row in rows if row["post_id"] == thread_id), None)`
unfoldable pub op_row : String → List ThreadRow → Option ThreadRow
op_row thread_id [] = none
op_row thread_id (r ∷ rows) = if same r.post_id thread_id then some r else op_row thread_id rows

pub record Lifecycle : Type 0 where
  pub thread_last_activity : ℕ
  pub thread_expiry : ℕ

-- Both `UPDATE` statements on one row.
unfoldable pub updated_row : String → Lifecycle → PostMetadata → PostMetadata
updated_row thread_id l p =
    if same p.thread_id thread_id
    then record p {
      expiry_timestamp = l.thread_expiry;
      thread_last_activity = if is_op p then l.thread_last_activity else p.thread_last_activity;
    }
    else p

module _ (thread_start_ttl thread_bump_ttl : ℕ) where
  -- One row that bumps the thread, in the loop over the rows.
  unfoldable pub bumped : (op_timestamp : ℕ) → ThreadRow → Lifecycle → Lifecycle
  unfolding extend_thread_expiry
  bumped op_timestamp row l =
      let event_timestamp : ℕ = max row.timestamp op_timestamp in
      record {
        thread_last_activity = max l.thread_last_activity event_timestamp;
        thread_expiry =
            extend_thread_expiry l.thread_expiry event_timestamp thread_start_ttl thread_bump_ttl;
      }

  unfoldable pub replay :
      (thread_id : String) → (op_timestamp : ℕ) → List ThreadRow → Lifecycle → Lifecycle
  unfolding bumped
  replay thread_id op_timestamp [] l = l
  replay thread_id op_timestamp (row ∷ rows) l =
      replay thread_id op_timestamp rows
        (if same row.post_id thread_id || not row.bump_flag then l else bumped op_timestamp row l)

  -- What the rows of a thread, in their order, make of it; nothing before its first post is there.
  unfoldable pub thread_lifecycle : String → List ThreadRow → Option Lifecycle
  unfolding replay op_row
  thread_lifecycle thread_id rows = elim (op_row thread_id rows) [
    | none ↦ none
    | some op ↦ some (
        replay thread_id op.timestamp rows (record {
          thread_last_activity = op.timestamp;
          thread_expiry = op.timestamp + thread_start_ttl;
        }))
  ]

  -- `_recompute_thread_lifecycle`
  unfoldable pub recompute_in : String → List PostMetadata → List PostMetadata
  unfolding thread_lifecycle updated_row row_before select_thread
  recompute_in thread_id posts =
      elim (thread_lifecycle thread_id (sort_by row_before (select_thread thread_id posts))) [
        | none ↦ posts
        | some l ↦ map (updated_row thread_id l) posts
      ]

unfoldable pub post_exists : String → List PostMetadata → Bool
post_exists post_id posts = any_by (λ p. same p.post_id post_id) posts

unfoldable pub get_post : String → List PostMetadata → Option PostMetadata
get_post post_id [] = none
get_post post_id (p ∷ posts) = if same p.post_id post_id then some p else get_post post_id posts

-- A time to live: the argument, else the board's, else the default.
abbrev pub ttl_or : Option ℕ → Option Board → (Board → ℕ) → ℕ → ℕ
ttl_or (some ttl) config field default = ttl
ttl_or none (some board) field default = field board
ttl_or none none field default = default

-- The row that is inserted, and the recomputation; no result is an `IntegrityError`.
unfoldable pub insert_post :
    (config : Option Board)
    → List PostMetadata
    → PostMetadata
    → (thread_start_ttl thread_bump_ttl : Option ℕ) → Option (List PostMetadata)
unfolding post_exists recompute_in
insert_post config posts post thread_start_ttl thread_bump_ttl =
    if post_exists post.post_id posts
    then none
    else some (
        recompute_in
          (ttl_or thread_start_ttl config (λ b. b.default_ttl_seconds) default_ttl_seconds)
          (ttl_or thread_bump_ttl config (λ b. b.bump_decay_rate) default_bump_decay_rate)
          post.thread_id (posts ++ post ∷ []))

-- The fields of the caller's object that `insert_post` then reads back from its row.
unfoldable pub read_back : List PostMetadata → PostMetadata → PostMetadata
unfolding get_post
read_back posts post = elim (get_post post.post_id posts) [
  | none ↦ post
  | some row ↦ record post {
    expiry_timestamp = row.expiry_timestamp;
    thread_last_activity = row.thread_last_activity;
    is_abandoned = row.is_abandoned;
  }
]

-- `recompute_thread_lifecycle`, with the times of the stored board.
unfoldable pub recompute_thread_lifecycle :
    (config : Option Board) → String → List PostMetadata → List PostMetadata
unfolding recompute_in
recompute_thread_lifecycle config thread_id posts =
    recompute_in (ttl_or none config (λ b. b.default_ttl_seconds) default_ttl_seconds)
      (ttl_or none config (λ b. b.bump_decay_rate) default_bump_decay_rate) thread_id posts
