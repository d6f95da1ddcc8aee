-- ===== src/Chunks.antt =====
-- retiboard/chunks: splitting an encrypted blob (chunker.py), admitting a received chunk
-- (validator.py) and assembling the blob again (reassembly.py), over the records of models.py.
pub mod Models
pub mod Chunker
pub mod Validator
pub mod Reassembly
pub mod Bytes
