-- ===== src/Chunks/Reassembly/Blocks.antt =====
-- The lemmas on the assembly file: what a read in blocks sees, and what a write leaves.
use retiboard.Base.{
  ℕ, zero, suc, ◌+◌, ◌-◌, ◌*◌, ◌≤◌, ◌<◌, ◌≡◌, refl, sym, ap, ◌∙◌, ◌==◌, Bool-cases, inl, inr, arith,
  [], ◌∷◌, ◌++◌, length, drop, append-nil, append_assoc, take-append-drop,
}
use retiboard.Chunks.Models.{Bytes, ok}
use retiboard.Chunks.Bytes.{slice, length-slice, drop_all, slice-length-slice, slice-append-drop}
use retiboard.Chunks.Bytes.Splice.{splice}
use retiboard.Chunks.Reassembly.{read_blocks, write_at}

-- A block and what follows it.
rest :
    (file : Bytes) (position stop : ℕ)
    → slice file position stop ++ drop (position + length (slice file position stop)) file
      ≡ drop position file
rest file position stop =
    ap (λ s. s ++ drop (position + length (slice file position stop)) file)
      (sym (slice-length-slice file position stop))
    ∙ slice-append-drop file position (length (slice file position stop))

-- The loop reads the rest of the file.
pub read_blocks-drop :
    (fuel : ℕ) (file : Bytes) (position : ℕ) (seen : Bytes)
    → length file < position + fuel
    → position ≤ length file
    → read_blocks fuel file position seen ≡ ok (seen ++ drop position file)
unfolding read_blocks
read_blocks-drop zero file position seen enough le = absurd (omega arith)
read_blocks-drop (suc fuel) file position seen enough le =
    let n : ℕ = length (slice file position (position + 1024 * 1024)) in
    let size = length-slice file position (position + 1024 * 1024) in
    elim (Bool-cases (n == 0)) [
      | inl done ↦ rw (done, drop_all position file (ground (arith, size)), append-nil seen) refl
      | inr more ↦
          rw
            (
              more,
              read_blocks-drop fuel file (position + n)
                  (seen ++ slice file position (position + 1024 * 1024)) (ground (arith, size))
                  (ground (arith, size)),
            )
            (ap ok (
              append_assoc seen _ _ ∙ ap (◌++◌ seen) (rest file position (position + 1024 * 1024))))
    ]

-- A write within the file replaces the bytes that it covers.
pub write_at-eq :
    (offset : ℕ) (bytes file : Bytes)
    → offset + length bytes ≤ length file
    → write_at offset bytes file ≡ splice offset bytes file
unfolding write_at
write_at-eq offset [] file within =
    let e : offset + 0 ≡ offset = omega arith in rw (e, take-append-drop offset file) refl
write_at-eq offset (x ∷ xs) file within =
    let e : offset - length file ≡ 0 = omega arith in rw e refl
