-- ===== src/Gossip/Have.antt =====
-- `compare_have_to_local`: the threads of a HAVE packet that are to be requested.
pub mod Requests
use retiboard.Base.{
  text_key, ℕ, ltb, leb, if◌then◌else◌, Bool, false, not, ◌&&◌, ◌||◌, truthy, String, List, [], ◌∷◌,
  ◌++◌, length, Option, none, some,
}
use retiboard.Base.Dict.{Dict, lookup, insert}
use retiboard.Moderation.Controls.{Control}
use retiboard.Store.Models.{PostMetadata}
use retiboard.Moderation.Policy.{should_replicate_post}

abbrev pub max_delta_batch_size : ℕ
max_delta_batch_size = 50

-- A thread of the catalogue, with its opening post where that is stored.
pub record CatalogThread : Type 0 where
  pub thread_id : String
  pub latest_post_timestamp : ℕ
  pub post_count : ℕ
  pub op : Option PostMetadata

pub record ThreadState : Type 0 where
  pub latest_post_timestamp : ℕ
  pub post_count : ℕ

-- An entry of `active_threads`, with the defaults for what is missing.
pub record RemoteThread : Type 0 where
  pub thread_id : String
  pub latest_post_timestamp : ℕ
  pub post_count : ℕ

pub record StaleThread : Type 0 where
  pub thread_id : String
  pub since_timestamp : ℕ
  pub known_post_count : ℕ

-- Whether a thread's opening post is there and may be replicated.
unfoldable pub is_shared : List Control → CatalogThread → Bool
is_shared db t = elim t.op [ none ↦ false | some op ↦ (should_replicate_post db op).allowed ]

unfoldable pub local_map_from :
    List Control → List CatalogThread → Dict String ThreadState → Dict String ThreadState
unfolding is_shared
local_map_from db [] local_map = local_map
local_map_from db (t ∷ ts) local_map = local_map_from db ts (
    if is_shared db t
    then insert t.thread_id
        (record { latest_post_timestamp = t.latest_post_timestamp; post_count = t.post_count })
        local_map
    else local_map)

-- What is to be requested for one thread, if anything.
unfoldable pub stale_thread : Dict String ThreadState → RemoteThread → Option StaleThread
stale_thread local_map r = elim (lookup r.thread_id local_map) [
  | none ↦ some (record { thread_id = r.thread_id; since_timestamp = 0; known_post_count = 0 })
  | some own ↦
      if ltb own.latest_post_timestamp r.latest_post_timestamp || ltb own.post_count r.post_count
      then (let has_interior_hole =
            ltb own.post_count r.post_count
            && leb r.latest_post_timestamp own.latest_post_timestamp in
          some (record {
            thread_id = r.thread_id;
            since_timestamp = if has_interior_hole then 0 else own.latest_post_timestamp;
            known_post_count = own.post_count;
          }))
      else none
]

abbrev pub appended {ℓ} : {A : Type ℓ} → List A → Option A → List A
appended xs none = xs
appended xs (some x) = xs ++ x ∷ []

-- The loop over the threads of the packet. An entry without an identifier is skipped before the test
-- that ends the loop.
unfoldable pub compare_from :
    Dict String ThreadState → List RemoteThread → List StaleThread → List StaleThread
unfolding stale_thread
compare_from local_map [] stale_threads = stale_threads
compare_from local_map (r ∷ rs) stale_threads =
    let more = appended stale_threads (stale_thread local_map r) in
    let skipped = compare_from local_map rs stale_threads in
    let rest = compare_from local_map rs more in
    if not (truthy r.thread_id)
    then skipped
    else if leb max_delta_batch_size (length more)
    then more
    else rest

unfoldable pub compare_have_to_local :
    List Control → List CatalogThread → List RemoteThread → List StaleThread
unfolding local_map_from compare_from
compare_have_to_local db local_catalog active_threads =
    compare_from (local_map_from db local_catalog []) active_threads []
