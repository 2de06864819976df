-- ===== src/Vfs/Memory.antt =====
-- src/vfs/memory.rs: the handle of a file in memory. A file that other handles change is outside the
-- model: the bytes belong to the handle.
pub mod Positions
pub mod Laws
use nanostore.Prelude.{
  ℕ, zero, suc, ◌+◌, ◌-◌, some, List, [], ◌∷◌, ◌++◌, length, take, drop, replicate, leb, ltb,
  if◌then◌else◌,
}
use nanostore.Prelude.Bytes.{Bytes}
use nanostore.Vfs.{FileOps, IoResult, done}

pub record MemoryFileHandle : Type 0 where
  pub cursor : ℕ
  pub buffer : Bytes

abbrev pub zeros : ℕ → Bytes
zeros n = replicate n 0

-- `Vec::resize(n, 0)`
unfoldable pub resize : ℕ → Bytes → Bytes
resize n bytes = take n bytes ++ zeros (n - length bytes)

-- `bytes[off..off + buf.len()].copy_from_slice(buf)`
unfoldable pub overwrite : ℕ → Bytes → Bytes → Bytes
overwrite off buf bytes = take off bytes ++ (buf ++ drop (off + length buf) bytes)

-- the part that `write` and `write_to_offset` share: grow to `end` if that is past the length, then
-- copy
unfoldable pub put_bytes : ℕ → Bytes → Bytes → Bytes
unfolding resize overwrite
put_bytes off buf bytes =
    overwrite off buf
      (if ltb (length bytes) (off + length buf) then resize (off + length buf) bytes else bytes)

-- `create_file`, and `open_file` of a file with the content `bytes`
abbrev pub create_file : MemoryFileHandle
create_file = record { cursor = 0; buffer = [] }

abbrev pub open_file : Bytes → MemoryFileHandle
open_file bytes = record { cursor = 0; buffer = bytes }

-- `Read::read` into a buffer of `n` bytes
unfoldable pub read : MemoryFileHandle → ℕ → Bytes × MemoryFileHandle
read h n =
    if leb (length h.buffer) h.cursor
    then ([], h)
    else (let taken = take n (drop h.cursor h.buffer) in
        (taken, record h { cursor = h.cursor + length taken }))

-- `Write::write`, which writes all of the buffer
unfoldable pub write : MemoryFileHandle → Bytes → MemoryFileHandle
unfolding put_bytes
write h buf = record { cursor = h.cursor + length buf; buffer = put_bytes h.cursor buf h.buffer }

-- `seek(SeekFrom::Start(offset))`
abbrev pub seek_start : MemoryFileHandle → ℕ → MemoryFileHandle
seek_start h offset = record h { cursor = offset }

unfoldable pub set_size : MemoryFileHandle → ℕ → MemoryFileHandle
unfolding resize
set_size h new_length = record h { buffer = resize new_length h.buffer }

unfoldable pub read_at_offset : MemoryFileHandle → ℕ → ℕ → Bytes
read_at_offset h pos n = if leb (length h.buffer) pos then [] else take n (drop pos h.buffer)

-- `write_to_offset`, where `pos + buf.len()` does not overflow
unfoldable pub write_to_offset : MemoryFileHandle → ℕ → Bytes → MemoryFileHandle
unfolding put_bytes
write_to_offset h pos buf = record h { buffer = put_bytes pos buf h.buffer }

-- the operations of the interface; those of a file in memory do not fail
abbrev pub memory_ops : FileOps
memory_ops = record {
  Handle = MemoryFileHandle;
  get_size = λ h. some (length h.buffer);
  read_at_offset = λ h pos n. some (read_at_offset h pos n);
  write_all = λ h buf. (done, write h buf);
  sync_data = λ h. (done, h);
  truncate = λ h. (done, set_size h 0);
}
