-- ===== src/Chunks/Reassembly.antt =====
-- retiboard/chunks/reassembly.py: verified chunks are written into a temporary file in any order,
-- and the complete file is hashed and moved to its place. A file is its bytes, `none` if it does not
-- exist; the folders above it are taken to exist or to be made.
mod Blocks
mod Present
pub mod Invariant
pub mod Assembly
use retiboard.Base.{
  nat_key, ℕ, zero, suc, ◌+◌, ◌-◌, ◌*◌, ltb, leb, ◌==◌, Bool, false, if◌then◌else◌, String, same,
  Option, none, some, List, [], ◌∷◌, ◌++◌, length, take, drop, replicate,
}
use retiboard.Base.Sets.{add}
use retiboard.Chunks.Models.{
  Bytes, value_error, file_not_found, out_of_fuel, Result, ok, raise, ◌>>=◌,
}
use retiboard.Chunks.Bytes.{slice}

-- The temporary and the final file.
pub record Files : Type 0 where
  pub temp : Option Bytes
  pub final : Option Bytes

pub record ReassemblyBuffer : Type 0 where
  pub blob_size : ℕ
  pub chunk_count : ℕ
  pub present : List ℕ
  pub files : Files
  pub open files use *

unfoldable pub init : Files → ℕ → ℕ → ReassemblyBuffer
init files blob_size chunk_count = record {
  blob_size = blob_size;
  chunk_count = chunk_count;
  present = [];
  files = files;
}

abbrev with_temp : ReassemblyBuffer → Option Bytes → ReassemblyBuffer
with_temp b file = record b { files = record { temp = file; final = b.final } }

-- Opening with "wb" empties the file, and `truncate` fills it with zeros to its size.
unfoldable pub reserve : ReassemblyBuffer → ReassemblyBuffer
reserve b = with_temp b (some (if ltb 0 b.blob_size then replicate b.blob_size 0 else []))

-- `seek` and `write`: a gap behind the end is filled with zeros, and to write nothing is no change.
unfoldable pub write_at : ℕ → Bytes → Bytes → Bytes
write_at offset [] file = file
write_at offset (x ∷ bytes) file =
    take offset file
    ++ (replicate (offset - length file) 0
        ++ (x ∷ bytes ++ drop (offset + length (x ∷ bytes)) file))

unfoldable pub write_verified_chunk : ReassemblyBuffer → ℕ → ℕ → Bytes → Result ReassemblyBuffer
write_verified_chunk b chunk_index offset bytes = elim b.temp [
  | none ↦ raise file_not_found
  | some file ↦ ok (record (with_temp b (some (write_at offset bytes file))) {
    present = add chunk_index b.present;
  })
]

-- `None` is also the answer where the file is missing or too short.
unfoldable pub read_chunk : ReassemblyBuffer → ℕ → ℕ → Option Bytes
read_chunk b offset size = elim b.temp [
  | none ↦ none
  | some file ↦
      let bytes = slice file offset (offset + size) in
      if length bytes == size then some bytes else none
]

unfoldable pub mark_present : ReassemblyBuffer → ℕ → ReassemblyBuffer
mark_present b chunk_index = record b { present = add chunk_index b.present }

unfoldable pub is_complete : ReassemblyBuffer → Bool
is_complete b = leb b.chunk_count (length b.present)

-- The blocks that `handle.read(1024 * 1024)` returns from a position on, put together: the text
-- whose hash the calls of `update` compute. Each round takes one unit of fuel.
unfoldable pub read_blocks : ℕ → Bytes → ℕ → Bytes → Result Bytes
read_blocks zero file position seen = raise out_of_fuel
read_blocks (suc fuel) file position seen =
    let block = slice file position (position + 1024 * 1024) in
    let rest = read_blocks fuel file (position + length block) (seen ++ block) in
    if length block == 0 then ok seen else rest

-- `os.replace(temp, final)`, with the handler of FileNotFoundError.
unfoldable pub replace_file : Files → Result Files
replace_file files = elim files.temp [
  | some file ↦ ok (record { temp = none; final = some file })
  | none ↦ elim files.final [ some file ↦ ok files | none ↦ raise file_not_found ]
]

module _ (sha256 : Bytes → String) where
  unfoldable pub verify_chunk_on_disk : ReassemblyBuffer → ℕ → ℕ → String → Bool
  unfolding read_chunk
  verify_chunk_on_disk b offset size expected_hash = elim (read_chunk b offset size) [
    | none ↦ false
    | some bytes ↦ same (sha256 bytes) expected_hash
  ]

  -- `others` is what other sessions do to the files between the hash and the replacement.
  unfoldable pub finalize :
      (others : Files → Files) → ReassemblyBuffer → String → Result ReassemblyBuffer
  unfolding read_blocks replace_file
  finalize others b expected_blob_hash = elim b.temp [
    | none ↦ raise file_not_found
    | some file ↦ do
      seen ← read_blocks (suc (length file)) file 0 []
      files ←
          if same (sha256 seen) expected_blob_hash
          then replace_file (others b.files)
          else raise value_error
      ok (record b { files = files })
  ]
