-- ===== src/Vfs/Memory/Laws.antt =====
-- The file in memory (src/vfs/memory.rs): writes at an offset and at the end, and the laws of the file
-- interface.
use mathlib.Core.List.{append-nil}
use mathlib.Core.Path.{subst}
use nanostore.Prelude.{
  some, ℕ, zero, suc, ◌+◌, ◌-◌, ◌≤◌, ◌≡◌, refl, [], ◌∷◌, ◌++◌, length, take, get_or, ltb,
  if◌then◌else◌, arith, length-append, take-append, ap, ◌∙◌, true,
}
use nanostore.Prelude.Bytes.{Bytes}
use nanostore.Vfs.{IsFile}
use nanostore.Vfs.Memory.Positions.{
  written, length-resize, get-put_bytes, length-put_bytes, no_bytes, read_at-take, read-put_bytes,
}
use nanostore.Vfs.Memory.{
  MemoryFileHandle, zeros, resize, overwrite, put_bytes, write, read_at_offset, write_to_offset,
  memory_ops,
}

-- A write at an offset, which may lie past the end, leaves the buffer at the positions from the
-- offset on and every other byte as it was, where bytes past the end count as 0; the file is as long
-- as before, or ends with the buffer if that is longer; and reading there gives the buffer.
pub write_to_offset_lem :
    (h : MemoryFileHandle) (pos : ℕ) (buf : Bytes) (i : ℕ)
    → (get_or (write_to_offset h pos buf).buffer i 0 ≡ written pos buf h.buffer i)
      × (length (write_to_offset h pos buf).buffer ≡ (
          if ltb (length h.buffer) (pos + length buf) then pos + length buf else length h.buffer))
      × (read_at_offset (write_to_offset h pos buf) pos (length buf) ≡ buf)
unfolding write_to_offset put_bytes
write_to_offset_lem h pos buf i = (
  get-put_bytes i pos buf h.buffer,
  length-put_bytes pos buf h.buffer,
  read_at-take (write_to_offset h pos buf) pos (length buf) ∙ read-put_bytes pos buf h.buffer,
)

pub take_all : (n : ℕ) (xs : Bytes) → length xs ≤ n → take n xs ≡ xs
take_all zero [] h = refl
take_all zero (x ∷ xs) h = absurd (omega arith)
take_all (suc n) [] h = refl
take_all (suc n) (x ∷ xs) h = ap (◌∷◌ x) (take_all n xs (omega arith))

-- A write at the end of the file appends.
put_bytes-end : (buf bytes : Bytes) → put_bytes (length bytes) buf bytes ≡ bytes ++ buf
unfolding put_bytes overwrite resize
put_bytes-end [] bytes =
    ground (arith, take_all (length bytes) bytes, no_bytes (length bytes) bytes, append-nil bytes)
put_bytes-end (b ∷ buf) bytes =
    let n = length bytes + length (b ∷ buf) in
    let grown : ltb (length bytes) n ≡ true = ground arith in
    let size = length-resize n bytes in
    rw (
      grown,
      no_bytes n (resize n bytes) (omega (arith, size)),
      append-nil (b ∷ buf),
      take_all n bytes (omega arith),
      take-append (length bytes) bytes (zeros (n - length bytes)) refl,
    )

-- A handle whose cursor is at the end, with this content.
abbrev pub Ends : Bytes → MemoryFileHandle → Type 0
Ends bytes h = (h.buffer ≡ bytes) × (h.cursor ≡ length h.buffer)

pub write-Ends :
    (h : MemoryFileHandle) (buf : Bytes)
    → h.cursor ≡ length h.buffer
    → Ends (h.buffer ++ buf) (write h buf)
unfolding write
write-Ends h buf end =
    let whole : put_bytes h.cursor buf h.buffer ≡ h.buffer ++ buf =
      ap (λ c. put_bytes c buf h.buffer) end ∙ put_bytes-end buf h.buffer in
    (whole, omega (arith, ap length whole, length-append h.buffer buf))

abbrev pub memory_file : IsFile memory_ops
memory_file = record {
  content = λ h. h.buffer;
  AtEnd = λ h. h.cursor ≡ length h.buffer;
  get_size_lem = λ h. refl;
  read_at_offset_lem = λ h pos n. ap some (read_at-take h pos n);
  write_all_lem =
      λ h h' buf end e. subst (Ends (h.buffer ++ buf)) (ap (λ p. p.1) e) (write-Ends h buf end);
  sync_data_lem = λ h h' end e. subst (Ends h.buffer) (ap (λ p. p.1) e) (refl, end);
}
