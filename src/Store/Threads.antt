-- ===== src/Store/Threads.antt =====
-- Statements on whole threads: what marks them as expired, deletes them, and keeps their number within
-- the limit of the board (retiboard/db/database.py).
pub mod Culled
pub mod Cap
use retiboard.Base.{
  ℕ, ◌-◌, ltb, leb, if◌then◌else◌, Bool, true, not, ◌&&◌, ◌||◌, String, same, truthy, List, [], ◌∷◌,
  ◌++◌, map, length, take, filter_by, text_key,
}
use retiboard.Base.Sets.{contains}
use retiboard.Base.Sort.{sort_by}
use retiboard.Store.Models.{PostMetadata, is_op}

-- The first post of a thread that is not marked as expired.
abbrev pub is_active : PostMetadata → Bool
is_active p = is_op p && not p.is_abandoned

-- `UPDATE posts SET is_abandoned = 1 WHERE post_id = thread_id AND thread_id IN (…)`
unfoldable pub mark_abandoned : List String → PostMetadata → PostMetadata
mark_abandoned ids p =
    if is_op p && contains p.thread_id ids then record p { is_abandoned = true } else p

abbrev pub thread_ids : List PostMetadata → List String
thread_ids = map (λ p. p.thread_id)

module _ (now : ℕ) (pinned_thread_ids : List String) (posts : List PostMetadata) where
  -- The threads that are newly expired.
  unfoldable pub expired_ids : List String
  expired_ids =
      filter_by (λ t. not (contains t pinned_thread_ids))
        (thread_ids (filter_by (λ p. is_active p && leb p.expiry_timestamp now) posts))

  unfoldable pub mark_expired_threads : List PostMetadata × List String
  unfolding expired_ids mark_abandoned
  mark_expired_threads = (map (mark_abandoned expired_ids) posts, expired_ids)

-- `SELECT DISTINCT`
unfoldable pub distinct : List String → List String
distinct [] = []
distinct (t ∷ ts) = t ∷ filter_by (λ u. not (same t u)) (distinct ts)

-- The hashes of the blobs of some rows: those of the texts, then those of the attachments.
unfoldable pub blob_hashes : List PostMetadata → List String
blob_hashes rows =
    map (λ p. p.content_hash) rows ++ filter_by truthy (map (λ p. p.attachment_content_hash) rows)

unfoldable pub abandoned_ids : List PostMetadata → List String
unfolding distinct
abandoned_ids posts = distinct (thread_ids (filter_by (λ p. p.is_abandoned && is_op p) posts))

-- `DELETE FROM posts WHERE thread_id IN (…)`
unfoldable pub delete_threads_bulk : List String → List PostMetadata → List PostMetadata
delete_threads_bulk ids posts = filter_by (λ p. not (contains p.thread_id ids)) posts

-- The rows that are left, and each deleted thread with the hashes of its blobs.
unfoldable pub delete_abandoned_threads :
    List PostMetadata → List PostMetadata × List (String × List String)
unfolding abandoned_ids delete_threads_bulk blob_hashes
delete_abandoned_threads posts = (
  delete_threads_bulk (abandoned_ids posts) posts,
  map (λ t. (t, blob_hashes (filter_by (λ p. same p.thread_id t) posts))) (abandoned_ids posts),
)

-- The end of `enforce_thread_cap`: nothing, if there is nothing to cull.
unfoldable pub mark_and_delete :
    List String → List PostMetadata → List PostMetadata × List (String × List String)
unfolding mark_abandoned delete_abandoned_threads
mark_and_delete [] posts = (posts, [])
mark_and_delete (t ∷ ts) posts = delete_abandoned_threads (map (mark_abandoned (t ∷ ts)) posts)

-- `ORDER BY thread_last_activity ASC`
abbrev pub older : PostMetadata → PostMetadata → Bool
older p q = ltb p.thread_last_activity q.thread_last_activity

unfoldable pub active_thread_ids : List PostMetadata → List String
active_thread_ids posts = thread_ids (sort_by older (filter_by is_active posts))

unfoldable pub get_thread_count : List PostMetadata → ℕ
get_thread_count posts = length (filter_by is_active posts)

module _ (max_threads : ℕ) (pinned_thread_ids : List String) (posts : List PostMetadata) where
  -- The threads that are too many, the oldest first.
  unfoldable pub cull_ids : List String
  unfolding active_thread_ids
  cull_ids =
      let active = active_thread_ids posts in
      let unpinned = filter_by (λ t. not (contains t pinned_thread_ids)) active in
      if leb (length active) max_threads || leb (length unpinned) 0
      then []
      else take (length active - max_threads) unpinned

  unfoldable pub enforce_thread_cap : List PostMetadata × List (String × List String)
  unfolding cull_ids mark_and_delete
  enforce_thread_cap = mark_and_delete cull_ids posts
