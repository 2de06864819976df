-- ===== src/Wal/Writer/Cursor.antt =====
-- Where the writer (src/wal/writer.rs) writes in a file in memory (src/vfs/memory.rs) that it opened
-- again or truncated: the cursor of the handle is not moved to the end.
use mathlib.Core.List.{append-nil}
use mathlib.Core.Path.{subst}
use nanostore.Prelude.{
  ℕ, zero, suc, ◌+◌, ◌-◌, ◌<◌, ◌≤◌, ◌≡◌, refl, ap, ◌∙◌, Bool, Option, none, some, List, [], ◌∷◌,
  ◌++◌, length, length-zero, take, drop, arith, true, false, ltb, leb, ◌||◌, inl, inr, Bool-cases,
}
use nanostore.Prelude.Bytes.{Bytes}
use nanostore.Vfs.{FileOps}
use nanostore.Vfs.Memory.{
  MemoryFileHandle, memory_ops, open_file, overwrite, put_bytes, resize, zeros, set_size,
}
use nanostore.Vfs.Memory.{write}
use nanostore.Vfs.Memory.Positions.{no_bytes, length-zeros}
use nanostore.Wal.Error.{WalResult, ok, err}
use nanostore.Wal.Record.{RecordData}
use nanostore.Wal.Record.Frame.{Crates, to_bytes}
use nanostore.Wal.Reader.{opened, open_writer, scan_wal_file}
use nanostore.Wal.Writer.{
  WalWriterConfig, WalWriter, Draw, new_record, flush, write_and_sync, append_encoded, append_bytes,
  write_record, truncate,
}

-- A writer that was opened.
opened-file :
    (ops : FileOps) (config : WalWriterConfig) (h : ops.Handle) (n : ℕ)
    (o : Option (WalResult (ℕ × List ℕ))) (w : WalWriter ops)
    → opened ops config h n o ≡ some (ok w)
    → (w.file ≡ h) × (w.buffer ≡ []) × (w.current_offset ≡ n)
opened-file ops config h n none w e = absurd (cc)
opened-file ops config h n (some (err x)) w e = absurd (cc)
opened-file ops config h n (some (ok (l, us))) w e =
    let fresh : WalWriter ops = record {
      current_lsn = l + 1;
      current_offset = n;
      active_txns = us;
      buffer = [];
      file = h;
      batch_syncs = config.sync_on_write;
    } in
    let p : fresh ≡ w = cc in
    subst (λ v. (v.file ≡ h) × (v.buffer ≡ []) × (v.current_offset ≡ n)) p (refl, refl, refl)

-- A configuration that syncs each record.
abbrev pub Syncs : WalWriterConfig → Type 0
Syncs config = (config.sync_on_write ≡ true) × (config.group_commit ≡ false)

or_true : (b : Bool) → (b || true) ≡ true
or_true true = refl
or_true false = refl

-- A record that is written at once goes to the cursor.
append_bytes-synced :
    (config : WalWriterConfig) (w : WalWriter memory_ops) (b : Bytes)
    → Syncs config
    → w.buffer ≡ []
    → 0 < length b
    → w.current_offset + length b ≤ config.max_wal_size
    → (append_bytes config w b).1.file ≡ write w.file b
unfolding append_bytes flush write_and_sync
append_bytes-synced config w b (sync, alone) empty some_bytes room =
    let fits : ltb config.max_wal_size (w.current_offset + length b) ≡ false = ground arith in
    let pending : leb (length b) 0 ≡ false = ground arith in
    rw (fits, sync, alone, empty, or_true (leb config.buffer_size (length b)), pending) refl

write_record-synced :
    (lib : Crates) (config : WalWriterConfig) (w : WalWriter memory_ops) (content : RecordData)
    (draw : Draw) (b : Bytes)
    → Syncs config
    → w.buffer ≡ []
    → 0 < length b
    → w.current_offset + length b ≤ config.max_wal_size
    → to_bytes lib (new_record config w content draw) config.encryption_key draw.nonce ≡ ok b
    → (write_record lib config w content draw).1.file ≡ write w.file b
unfolding write_record append_encoded
write_record-synced lib config w content draw b syncs empty some_bytes room encoded =
    rw encoded (append_bytes-synced config w b syncs empty some_bytes room)

overwriting :
    (bytes b : Bytes) → length b ≤ length bytes → put_bytes 0 b bytes ≡ b ++ drop (length b) bytes
unfolding put_bytes overwrite
overwriting bytes b h = ground arith

take-zeros : (n m : ℕ) → n ≤ m → take n (zeros m) ≡ zeros n
take-zeros zero m h = refl
take-zeros (suc n) zero h = absurd (omega arith)
take-zeros (suc n) (suc m) h = ap (◌∷◌ 0) (take-zeros n m (omega arith))

resize-nil : (n : ℕ) → resize n [] ≡ zeros n
unfolding resize
resize-nil zero = refl
resize-nil (suc n) = let same : suc n - 0 ≡ suc n = omega arith in rw same refl

padding : (n : ℕ) (b : Bytes) → 0 < length b → put_bytes n b [] ≡ zeros n ++ b
unfolding put_bytes overwrite
padding n b h =
    let m = n + length b in
    let grown : ltb 0 m ≡ true = ground arith in
    let behind : drop m (zeros m) ≡ [] = no_bytes m (zeros m) (omega (arith, length-zeros m)) in
    rw (grown, resize-nil m, take-zeros n m (omega arith), behind, append-nil b) refl

-- A writer that was truncated.
record Emptied (w w' : WalWriter memory_ops) : Type 0 where
  no_buffer : w'.buffer ≡ []
  no_offset : w'.current_offset ≡ 0
  cursor_kept : w'.file.cursor ≡ w.file.cursor + length w.buffer
  no_bytes_left : w'.file.buffer ≡ []

set_size-zero : (h : MemoryFileHandle) → set_size h 0 ≡ record h { buffer = [] }
unfolding set_size resize
set_size-zero h = let none_left : 0 - length h.buffer ≡ 0 = omega arith in rw none_left refl

set_cursor : (h : MemoryFileHandle) → (set_size h 0).cursor ≡ h.cursor
unfolding set_size
set_cursor h = refl

written_cursor : (h : MemoryFileHandle) (b : Bytes) → (write h b).cursor ≡ h.cursor + length b
unfolding write
written_cursor h b = refl

truncate-Emptied : (w : WalWriter memory_ops) → Emptied w (truncate w).1
unfolding truncate
truncate-Emptied w = elim (Bool-cases (leb (length w.buffer) 0)) [
  | inl empty ↦ rw empty (record {
    no_buffer = length-zero w.buffer (ground arith);
    no_offset = refl;
    cursor_kept = set_cursor w.file ∙ ground arith;
    no_bytes_left = ap (λ h. h.buffer) (set_size-zero w.file);
  })
  | inr pending ↦ rw pending (record {
    no_buffer = refl;
    no_offset = refl;
    cursor_kept = set_cursor (write w.file w.buffer) ∙ written_cursor w.file w.buffer;
    no_bytes_left = ap (λ h. h.buffer) (set_size-zero (write w.file w.buffer));
  })
]

-- A log in memory that is opened again is written from its start: with a configuration that syncs
-- each record and room for it, the first record, if it is no longer than the log, takes the place of
-- the log's first bytes, and the file does not grow.
pub reopened_overwrites :
    (lib : Crates) (config : WalWriterConfig) (bytes b : Bytes) (w : WalWriter memory_ops)
    (content : RecordData) (draw : Draw)
    → open_writer memory_ops lib config (open_file bytes) ≡ some (ok w)
    → Syncs config
    → to_bytes lib (new_record config w content draw) config.encryption_key draw.nonce ≡ ok b
    → 0 < length b
    → length b ≤ length bytes
    → length bytes + length b ≤ config.max_wal_size
    → (write_record lib config w content draw).1.file.buffer ≡ b ++ drop (length b) bytes
unfolding open_writer write
reopened_overwrites lib config bytes b w content draw e syncs encoded some_bytes short room =
    let (file, empty, offset) =
      opened-file memory_ops config (open_file bytes) (length bytes)
        (scan_wal_file memory_ops lib (open_file bytes) config.encryption_key) w e in
    ap (λ h. h.buffer)
      (write_record-synced lib config w content draw b syncs empty some_bytes
          (omega (arith, offset)) encoded
        ∙ ap (λ h. write h b) file)
    ∙ overwriting bytes b short

-- A log in memory that is truncated is written from where it ended: with a configuration that syncs
-- each record and room for it, the next record stands behind as many zero bytes as the cursor had
-- passed.
pub truncated_pads :
    (lib : Crates) (config : WalWriterConfig) (b : Bytes) (w : WalWriter memory_ops)
    (content : RecordData) (draw : Draw)
    → Syncs config
    → to_bytes lib (new_record config (truncate w).1 content draw) config.encryption_key draw.nonce
      ≡ ok b
    → 0 < length b
    → length b ≤ config.max_wal_size
    → (write_record lib config (truncate w).1 content draw).1.file.buffer
      ≡ zeros (w.file.cursor + length w.buffer) ++ b
unfolding write
truncated_pads lib config b w content draw syncs encoded some_bytes room =
    let t = truncate-Emptied w in
    ap (λ h. h.buffer)
      (write_record-synced lib config (truncate w).1 content draw b syncs t.no_buffer some_bytes
        (omega (arith, t.no_offset)) encoded)
    ∙ ap (λ bytes. put_bytes (truncate w).1.file.cursor b bytes) t.no_bytes_left
    ∙ ap (λ c. put_bytes c b []) t.cursor_kept
    ∙ padding (w.file.cursor + length w.buffer) b some_bytes
