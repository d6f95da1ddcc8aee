-- ===== src/Storage/Bulk.antt =====
-- What a bulk deletion leaves.
use retiboard.Base.{
  ℕ, ◌+◌, ◌≡◌, refl, ◌∙◌, arith, if◌then◌else◌, String, same, List, [], ◌∷◌, none, text_key,
}
use retiboard.Base.Dict.{lookup-erase}
use retiboard.Base.Sets.{contains}
use retiboard.Storage.{
  BoardFiles, read_payload, delete_payload, delete_chunk_cache, delete_each, delete_payloads_bulk,
  delete_chunk_cache_bulk,
}

module _ (h : String) where
  read-delete_payload :
      (files : BoardFiles) (g : String)
      → read_payload (delete_payload files g).0 h
        ≡ (if same g h then none else read_payload files h)
  unfolding read_payload delete_payload
  read-delete_payload files g = ground (arith, lookup-erase g h files.payloads)

  read-delete_each :
      (hashes : List String) (files : BoardFiles) (n : ℕ)
      → read_payload (delete_each delete_payload files hashes n).0 h
        ≡ (if contains h hashes then none else read_payload files h)
  unfolding delete_each contains
  read-delete_each [] files n = refl
  read-delete_each (g ∷ hashes) files n = ground (
    arith,
    read-delete_each hashes (delete_payload files g).0
        (if (delete_payload files g).1 then n + 1 else n),
    read-delete_payload files g,
  )

  -- The listed payloads are gone, and every other is as it was.
  pub read-delete_payloads_bulk :
      (files : BoardFiles) (hashes : List String)
      → read_payload (delete_payloads_bulk files hashes).0 h
        ≡ (if contains h hashes then none else read_payload files h)
  unfolding delete_payloads_bulk
  read-delete_payloads_bulk files hashes = read-delete_each hashes files 0

  read-delete_chunk_cache :
      (files : BoardFiles) (g : String)
      → read_payload (delete_chunk_cache files g).0 h ≡ read_payload files h
  unfolding read_payload delete_chunk_cache
  read-delete_chunk_cache files g = ground arith

  cache_kept :
      (hashes : List String) (files : BoardFiles) (n : ℕ)
      → read_payload (delete_each delete_chunk_cache files hashes n).0 h ≡ read_payload files h
  unfolding delete_each
  cache_kept [] files n = refl
  cache_kept (g ∷ hashes) files n =
      cache_kept hashes (delete_chunk_cache files g).0
        (if (delete_chunk_cache files g).1 then n + 1 else n)
      ∙ read-delete_chunk_cache files g

  pub read-delete_chunk_cache_bulk :
      (files : BoardFiles) (hashes : List String)
      → read_payload (delete_chunk_cache_bulk files hashes).0 h ≡ read_payload files h
  unfolding delete_chunk_cache_bulk
  read-delete_chunk_cache_bulk files hashes = cache_kept hashes files 0
