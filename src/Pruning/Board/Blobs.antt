-- ===== src/Pruning/Board/Blobs.antt =====
-- Which payload files the deletion of threads takes with it.
use mathlib.Core.Path.{fun_ext}
use retiboard.Base.{
  ℕ, ◌+◌, ◌≡◌, refl, sym, ap, ◌∙◌, arith, if◌then◌else◌, Bool, false, ◌&&◌, ◌||◌, String, same,
  truthy, List, [], ◌∷◌, ◌++◌, map, filter_by, any_by, Option, none, text_key,
}
use retiboard.Base.Sets.{contains}
use retiboard.Chunks.Models.{Bytes}
use retiboard.Store.Models.{PostMetadata}
use retiboard.Store.Threads.{
  mark_abandoned, blob_hashes, abandoned_ids, delete_abandoned_threads, mark_and_delete,
}
use retiboard.Store.Threads.Culled.{any_by-map, contains-abandoned_ids, doomed}
use retiboard.Storage.{read_payload, delete_chunk_cache_bulk}
use retiboard.Storage.Bulk.{read-delete_payloads_bulk, read-delete_chunk_cache_bulk}
use retiboard.Pruning.Board.{BoardState, delete_blobs, delete_thread_blobs}

-- Some files, or none where the test holds.
abbrev pub gone_if : Bool → Option Bytes → Option Bytes
gone_if gone file = if gone then none else file

module _ (h : String) where
  -- The post has its text or its attachments under this hash.
  abbrev pub refers : PostMetadata → Bool
  refers p =
      same p.content_hash h
      || (truthy p.attachment_content_hash && same p.attachment_content_hash h)

  delete_blobs-files :
      (s : BoardState) (hashes : List String)
      → read_payload (delete_blobs s hashes).0.files h
        ≡ gone_if (contains h hashes) (read_payload s.files h)
  unfolding delete_blobs
  delete_blobs-files s hashes =
      read-delete_payloads_bulk h (delete_chunk_cache_bulk s.files hashes).0 hashes
      ∙ ap (gone_if (contains h hashes)) (read-delete_chunk_cache_bulk h s.files hashes)

  pub delete_thread_blobs-files :
      (threads : List (String × List String)) (s : BoardState) (n : ℕ)
      → read_payload (delete_thread_blobs s threads n).0.files h
        ≡ gone_if
            (any_by (λ (r : String × List String). contains h r.1) threads)
            (read_payload s.files h)
  unfolding delete_thread_blobs any_by
  delete_thread_blobs-files [] s n = refl
  delete_thread_blobs-files ((t, hashes) ∷ threads) s n =
      delete_thread_blobs-files threads (delete_blobs s hashes).0 (n + (delete_blobs s hashes).1)
      ∙ ap (gone_if (any_by (λ (r : String × List String). contains h r.1) threads))
          (delete_blobs-files s hashes)
      ∙ ground arith

  contains-append : (xs ys : List String) → contains h (xs ++ ys) ≡ (contains h xs || contains h ys)
  unfolding contains
  contains-append [] ys = refl
  contains-append (x ∷ xs) ys = ground (arith, contains-append xs ys)

  either :
      (rows : List PostMetadata)
      → (contains h (map (λ p. p.content_hash) rows)
          || contains h (filter_by truthy (map (λ p. p.attachment_content_hash) rows)))
        ≡ any_by refers rows
  unfolding contains filter_by any_by
  either [] = refl
  either (p ∷ rows) = ground (arith, either rows)

  contains-blob_hashes :
      (rows : List PostMetadata) → contains h (blob_hashes rows) ≡ any_by refers rows
  unfolding blob_hashes
  contains-blob_hashes rows =
      contains-append (map (λ p. p.content_hash) rows)
        (filter_by truthy (map (λ p. p.attachment_content_hash) rows))
      ∙ either rows

  no_thread :
      (rows : List PostMetadata) → any_by (λ p. refers p && contains p.thread_id []) rows ≡ false
  unfolding any_by contains
  no_thread [] = refl
  no_thread (p ∷ rows) = ground (arith, no_thread rows)

  more_thread :
      (t : String) (ids : List String) (rows : List PostMetadata)
      → (any_by refers (filter_by (λ p. same p.thread_id t) rows)
          || any_by (λ p. refers p && contains p.thread_id ids) rows)
        ≡ any_by (λ p. refers p && contains p.thread_id (t ∷ ids)) rows
  unfolding any_by contains filter_by
  more_thread t ids [] = refl
  more_thread t ids (p ∷ rows) = ground (arith, more_thread t ids rows)

  -- Over which threads and over which rows one looks first makes no difference.
  rows_of_threads :
      (ids : List String) (rows : List PostMetadata)
      → any_by
          (λ (r : String × List String). contains h r.1)
          (map (λ t. (t, blob_hashes (filter_by (λ p. same p.thread_id t) rows))) ids)
        ≡ any_by (λ p. refers p && contains p.thread_id ids) rows
  unfolding any_by
  rows_of_threads [] rows = sym (no_thread rows)
  rows_of_threads (t ∷ ids) rows =
      rw (contains-blob_hashes (filter_by (λ p. same p.thread_id t) rows), rows_of_threads ids rows)
        (more_thread t ids rows)

  marked_refers :
      (ids : List String) (gone : String → Bool) (p : PostMetadata)
      → (refers (mark_abandoned ids p) && gone (mark_abandoned ids p).thread_id)
        ≡ (refers p && gone p.thread_id)
  unfolding mark_abandoned
  marked_refers ids gone p = ground arith

  -- The deletion of marked threads names the blobs of their rows.
  pub delete_abandoned_threads-blobs :
      (ids : List String) (posts : List PostMetadata)
      → any_by
          (λ (r : String × List String). contains h r.1)
          (delete_abandoned_threads (map (mark_abandoned ids) posts)).1
        ≡ any_by (λ p. refers p && doomed ids posts p.thread_id) posts
  unfolding delete_abandoned_threads
  delete_abandoned_threads-blobs ids posts =
      let rows = map (mark_abandoned ids) posts in
      rows_of_threads (abandoned_ids rows) rows
      ∙ any_by-map (λ p. refers p && contains p.thread_id (abandoned_ids rows)) (mark_abandoned ids)
          posts
      ∙ ap (λ test. any_by test posts)
          (fun_ext (marked_refers ids (λ t. contains t (abandoned_ids rows))))
      ∙ ap (λ gone. any_by (λ (p : PostMetadata). refers p && gone p.thread_id) posts)
          (fun_ext (λ t. contains-abandoned_ids ids t posts))

  pub mark_and_delete-blobs :
      (ids : List String) (posts : List PostMetadata)
      → doomed ids posts ≡ (λ t. contains t ids)
      → any_by (λ (r : String × List String). contains h r.1) (mark_and_delete ids posts).1
        ≡ any_by (λ p. refers p && contains p.thread_id ids) posts
  unfolding mark_and_delete any_by
  mark_and_delete-blobs [] posts d = sym (no_thread posts)
  mark_and_delete-blobs (t ∷ ids) posts d =
      delete_abandoned_threads-blobs (t ∷ ids) posts
      ∙ ap (λ gone. any_by (λ (p : PostMetadata). refers p && gone p.thread_id) posts) d
