-- ===== src/Vfs.antt =====
-- src/vfs/filesystem.rs: the operations of a file that the log uses, as an interface, and what the
-- log relies on. The child is the file in memory that fills it.
pub mod Memory
use nanostore.Prelude.{ℕ, Option, some, ◌≡◌, ◌++◌, length, take, drop}
use nanostore.Prelude.Bytes.{Bytes}

-- Whether an operation on a file succeeded.
pub data IoResult : Type 0 where
  done failed : IoResult

-- `File`, `Read` and `Write`. What is read is the part of the buffer that was filled, and `none` an
-- error.
pub record FileOps : Type 1 where
  pub Handle : Type 0
  pub get_size : Handle → Option ℕ
  pub read_at_offset : Handle → ℕ → ℕ → Option Bytes
  pub write_all : Handle → Bytes → IoResult × Handle
  pub sync_data : Handle → IoResult × Handle
  pub truncate : Handle → IoResult × Handle

-- What a log relies on: reads succeed and see the content, and a write that succeeds with the cursor at the end
-- appends and leaves the cursor at the end.
pub record IsFile (ops : FileOps) : Type 1 where
  pub content : ops.Handle → Bytes
  pub AtEnd : ops.Handle → Type 0
  pub get_size_lem : (h : ops.Handle) → ops.get_size h ≡ some (length (content h))
  pub read_at_offset_lem :
      (h : ops.Handle) (pos n : ℕ)
      → ops.read_at_offset h pos n ≡ some (take n (drop pos (content h)))
  pub write_all_lem :
      (h h' : ops.Handle) (buf : Bytes)
      → AtEnd h
      → ops.write_all h buf ≡ (done, h')
      → (content h' ≡ content h ++ buf) × AtEnd h'
  pub sync_data_lem :
      (h h' : ops.Handle)
      → AtEnd h
      → ops.sync_data h ≡ (done, h')
      → (content h' ≡ content h) × AtEnd h'
