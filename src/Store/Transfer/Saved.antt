-- ===== src/Store/Transfer/Saved.antt =====
-- A manifest that is saved is the one that is loaded.
use retiboard.Base.{
  ◌<◌, ◌≡◌, refl, sym, ap, ◌∙◌, arith, ltb, ◌==◌, true, false, not, ◌&&◌, String, same, List, [],
  ◌∷◌, ◌++◌, append-nil, append_assoc, filter_by, filter_by-append, any_by, any_by-append, All,
  some,
}
use retiboard.Base.Sort.{sort_by, insert_sorted}
use retiboard.Chunks.Models.{ChunkManifest, ChunkManifestEntry}
use retiboard.Store.Transfer.{
  TransferTables, replace_row, first_row, insert_entries, save_chunk_manifest, load_chunk_manifest,
}

-- The entries of one blob, in the order of their indexes.
abbrev pub EntriesOf : String → List ChunkManifestEntry → Type 0
EntriesOf h [] = Unit
EntriesOf h (e ∷ entries) =
    (same e.blob_hash h ≡ true)
    × All (λ d. e.chunk_index < d.chunk_index) entries
    × EntriesOf h entries

without : String → List ChunkManifestEntry → List ChunkManifestEntry
without h table = filter_by (λ e. not (same e.blob_hash h)) table

module _ (h : String) where
  -- A row of the blob that stands in the table has an index below those that follow.
  abbrev Below : List ChunkManifestEntry → List ChunkManifestEntry → Type 0
  Below done entries = All (λ d. All (λ e. d.chunk_index < e.chunk_index) entries) done

  no_clash_without :
      (e : ChunkManifestEntry) (table : List ChunkManifestEntry)
      → same e.blob_hash h ≡ true
      → any_by
          (λ r. same r.blob_hash e.blob_hash && r.chunk_index == e.chunk_index)
          (without h table)
        ≡ false
  unfolding any_by filter_by without
  no_clash_without e [] k = refl
  no_clash_without e (r ∷ table) k = ground (arith, no_clash_without e table k)

  no_clash_done :
      (e : ChunkManifestEntry) (rest done : List ChunkManifestEntry)
      → Below done (e ∷ rest)
      → any_by (λ r. same r.blob_hash e.blob_hash && r.chunk_index == e.chunk_index) done ≡ false
  unfolding any_by
  no_clash_done e rest [] below = refl
  no_clash_done e rest (d ∷ done) below =
      ground (arith, below.0.0, no_clash_done e rest done below.1)

  Below-next :
      (e : ChunkManifestEntry) (rest done : List ChunkManifestEntry)
      → All (λ d. e.chunk_index < d.chunk_index) rest
      → Below done (e ∷ rest)
      → Below (done ++ e ∷ []) rest
  Below-next e rest [] above below = (above, tt)
  Below-next e rest (d ∷ done) above below = (below.0.1, Below-next e rest done above below.1)

  insert_entries_lem :
      (table done entries : List ChunkManifestEntry)
      → EntriesOf h entries
      → Below done entries
      → insert_entries (without h table ++ done) entries
        ≡ some (without h table ++ (done ++ entries))
  unfolding insert_entries
  insert_entries_lem table done [] es below = rw append-nil refl
  insert_entries_lem table done (e ∷ entries) es below =
      let clash = λ (r : ChunkManifestEntry).
        same r.blob_hash e.blob_hash && r.chunk_index == e.chunk_index in
      rw
        (
          any_by-append clash (without h table) done,
          no_clash_without e table es.0,
          no_clash_done e entries done below,
          append_assoc (without h table) done (e ∷ []),
          ← append_assoc done (e ∷ []) entries,
        )
        (insert_entries_lem table (done ++ e ∷ []) entries es.2
          (Below-next e entries done es.1 below))

  -- Entries in order stay in order when they are read back, and no other row is read.
  sorted_entries :
      (entries : List ChunkManifestEntry)
      → EntriesOf h entries
      → sort_by (λ d e. ltb d.chunk_index e.chunk_index) entries ≡ entries
  unfolding sort_by insert_sorted
  sorted_entries [] es = refl
  sorted_entries (e ∷ []) es = refl
  sorted_entries (e ∷ d ∷ entries) es =
      ap
        (insert_sorted
          (λ (c : ChunkManifestEntry) (d : ChunkManifestEntry). ltb c.chunk_index d.chunk_index) e)
        (sorted_entries (d ∷ entries) es.2)
      ∙ ground (arith, es.1.0)

  read_back :
      (entries : List ChunkManifestEntry)
      → EntriesOf h entries
      → filter_by (λ e. same e.blob_hash h) entries ≡ entries
  unfolding filter_by
  read_back [] es = refl
  read_back (e ∷ entries) es = rw (es.0, read_back entries es.2) refl

  none_without :
      (table : List ChunkManifestEntry) → filter_by (λ e. same e.blob_hash h) (without h table) ≡ []
  unfolding filter_by without
  none_without [] = refl
  none_without (e ∷ table) = ground (arith, none_without table)

saved_entries :
    (h : String) (table entries : List ChunkManifestEntry)
    → EntriesOf h entries
    → insert_entries (without h table) entries ≡ some (without h table ++ entries)
saved_entries h table entries es =
    ap (λ rows. insert_entries rows entries) (sym (append-nil (without h table)))
    ∙ insert_entries_lem h table [] entries es tt

loaded_entries :
    (h : String) (table entries : List ChunkManifestEntry)
    → EntriesOf h entries
    → sort_by
        (λ d e. ltb d.chunk_index e.chunk_index)
        (filter_by (λ e. same e.blob_hash h) (without h table ++ entries))
      ≡ entries
loaded_entries h table entries es =
    rw
      (
        filter_by-append (λ (e : ChunkManifestEntry). same e.blob_hash h) (without h table) entries,
        none_without h table,
        read_back h entries es,
      )
      (sorted_entries h entries es)

first_row-replaced :
    (manifest : ChunkManifest) (table : List ChunkManifest)
    → first_row
        (λ m. same m.blob_hash manifest.blob_hash)
        (replace_row (λ m. same m.blob_hash manifest.blob_hash) manifest table)
      ≡ some manifest
unfolding first_row replace_row filter_by
first_row-replaced manifest [] = ground arith
first_row-replaced manifest (m ∷ table) = ground (arith, first_row-replaced manifest table)

-- A manifest is saved with its entries, whose indexes ascend, over whatever is stored for its blob:
-- the tables then have no other rows for the blob, and a load gives the same manifest and entries.
pub load-save_chunk_manifest :
    (db : TransferTables) (manifest : ChunkManifest) (entries : List ChunkManifestEntry)
    → EntriesOf manifest.blob_hash entries
    → (db' : TransferTables) × (save_chunk_manifest db manifest entries ≡ some db')
      × (load_chunk_manifest db' manifest.blob_hash ≡ some (manifest, entries))
unfolding save_chunk_manifest load_chunk_manifest without
load-save_chunk_manifest db manifest entries es =
    let h = manifest.blob_hash in
    let others = without h db.chunk_manifest_entries in
    (
      record db {
        chunk_manifests = replace_row (λ m. same m.blob_hash h) manifest db.chunk_manifests;
        chunk_manifest_entries = others ++ entries;
      },
      rw (saved_entries h db.chunk_manifest_entries entries es, save_chunk_manifest) refl,
      rw (first_row-replaced manifest db.chunk_manifests, load_chunk_manifest)
          (ap (λ rows. some (manifest, rows))
            (loaded_entries h db.chunk_manifest_entries entries es)),
    )
