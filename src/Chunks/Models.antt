-- ===== src/Chunks/Models.antt =====
-- retiboard/chunks/models.py: the structural records of one encrypted blob. A blob is the list of
-- its bytes. SHA-256 in hexadecimal is a parameter of the definitions that hash.
use retiboard.Base.{ℕ, String, Option, List}
use retiboard.Base.Int.{ℤ}

pub data BlobKind : Type 0 where
  text attachments : BlobKind

-- A peer's manifest is read with `int()`, so that its numbers may be negative. Indices and counts are
-- natural numbers here: no entry is looked up under a negative index, and a negative count admits no
-- chunk, as zero does.
pub record ChunkManifestEntry : Type 0 where
  pub blob_hash : String
  pub chunk_index : ℕ
  pub offset : ℤ
  pub size : ℤ
  pub chunk_hash : String

pub record ChunkManifest : Type 0 where
  pub manifest_version : ℕ
  pub board_id : String
  pub post_id : String
  pub thread_id : String
  pub blob_kind : BlobKind
  pub blob_hash : String
  pub blob_size : ℤ
  pub chunk_size : ℕ
  pub chunk_count : ℕ
  pub merkle_root : Option String
  pub created_at : ℕ

abbrev pub Bytes : Type 0
Bytes = List ℕ

-- `value_error` stands for ValueError and its subclass ChunkValidationError, `file_not_found` for
-- FileNotFoundError. `out_of_fuel` is the model's own.
pub data Error : Type 0 where
  value_error file_not_found out_of_fuel : Error

pub data Result {ℓ} (A : Type ℓ) : Type ℓ where
  ok : A → Result A
  raise : Error → Result A

infixl 5 ◌>>=◌
abbrev pub ◌>>=◌ {ℓ κ} : {A : Type ℓ} {B : Type κ} → Result A → (A → Result B) → Result B
ok a >>= f = f a
raise e >>= f = raise e
