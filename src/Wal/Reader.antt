-- ===== src/Wal/Reader.antt =====
-- src/wal/reader.rs: the reader of the log, over the file interface; and the scan of an existing log
-- (src/wal/writer.rs). Loops run on fuel; the children prove that the size of the file is enough.
pub mod Termination
pub mod Frames
pub mod Whole
use nanostore.Prelude.{
  ℕ, zero, suc, ◌+◌, ◌-◌, ◌%◌, ◌^◌, Option, none, some, List, [], ◌∷◌, ◌++◌, length, ltb, leb, ◌==◌,
  not, if◌then◌else◌,
}
use nanostore.Prelude.Bytes.{Bytes, from_le, bytes_at, bytes_eq}
use nanostore.Vfs.{FileOps}
use nanostore.Wal.Error.{
  WalResult, ok, err, io_error, corrupted_wal, invalid_record, invalid_magic, incomplete_record,
  ◌>>=◌,
}
use nanostore.Wal.Record.{RecordData, begin, write, commit, rollback, checkpoint, prepare}
use nanostore.Wal.Record.Frame.{Crates, WalRecord, magic, to_bytes, from_bytes}
use nanostore.Wal.Writer.{insert_txn, remove_txn, WalWriter, WalWriterConfig}

module _ (ops : FileOps) where
  pub record WalReader : Type 0 where
    pub file : ops.Handle
    pub encryption_key : Option Bytes
    pub offset : ℕ
    pub file_size : ℕ

module _ (ops : FileOps) where
  abbrev pub reader_of : ops.Handle → Option Bytes → ℕ → WalReader ops
  reader_of file encryption_key file_size = record {
    file = file;
    encryption_key = encryption_key;
    offset = 0;
    file_size = file_size;
  }

  -- `WalReader::open`, of a file that was opened
  abbrev pub open_reader : ops.Handle → Option Bytes → WalResult (WalReader ops)
  open_reader file encryption_key = elim (ops.get_size file) [
    | none ↦ err io_error
    | some file_size ↦ ok (reader_of file encryption_key file_size)
  ]

-- `-=` on a `u64`, as a build without overflow checks computes it
abbrev pub wrapping_sub : ℕ → ℕ → ℕ
wrapping_sub a b = (a + (2 ^ 64 - b % 2 ^ 64)) % 2 ^ 64

module _ {ops : FileOps} where
  -- the body of the loop of `read_all`
  abbrev pub after_next :
      (WalReader ops → Option (WalResult (List WalRecord)))
      → WalResult (Option WalRecord × WalReader ops)
      → Option (WalResult (List WalRecord))
  after_next again (err e) = some (err e)
  after_next again (ok (none, r)) = some (ok [])
  after_next again (ok (some found, r)) = elim (again r) [
    | none ↦ none
    | some rest ↦ some (do found_after ← rest; ok (found ∷ found_after))
  ]

  abbrev pub reset : WalReader ops → WalReader ops
  reset r = record r { offset = 0 }

module _ {ops : FileOps} (lib : Crates) where
  -- `read_next` with the bytes of the record
  abbrev pub parse_record :
      WalReader ops → ℕ → Option Bytes → WalResult (Option WalRecord × WalReader ops)
  parse_record r total_size none = err io_error
  parse_record r total_size (some record_buf) =
      if ltb (length record_buf) total_size
      then err (corrupted_wal r.offset incomplete_record)
      else (do
        read ← from_bytes lib record_buf r.encryption_key
        ok (some read, record r { offset = r.offset + total_size }))

  -- `read_next` from the total size on
  unfoldable pub read_record : WalReader ops → ℕ → WalResult (Option WalRecord × WalReader ops)
  unfolding from_bytes
  read_record r total_size =
      parse_record r total_size (ops.read_at_offset r.file r.offset total_size)

  -- `read_next` with the bytes of the header
  unfoldable pub parse_header :
      WalReader ops → Option Bytes → WalResult (Option WalRecord × WalReader ops)
  unfolding read_record
  parse_header r none = err io_error
  parse_header r (some header_buf) =
      if ltb (length header_buf) 31
      then ok (none, r)
      else if not (bytes_eq (bytes_at 0 4 header_buf) magic)
      then err (corrupted_wal r.offset invalid_magic)
      else read_record r (31 + from_le (bytes_at 27 4 header_buf) + 32)

  unfoldable pub read_next : WalReader ops → WalResult (Option WalRecord × WalReader ops)
  unfolding parse_header
  read_next r =
      if leb r.file_size r.offset
      then ok (none, r)
      else parse_header r (ops.read_at_offset r.file r.offset 31)

  -- the loop of `read_all`; `none` where the fuel runs out
  unfoldable pub read_all : ℕ → WalReader ops → Option (WalResult (List WalRecord))
  unfolding read_next
  read_all zero r = none
  read_all (suc fuel) r = after_next (read_all fuel) (read_next r)

  -- the body of the loop of `seek_to_lsn`: `to_bytes` draws a nonce again, and the subtraction wraps
  -- around
  abbrev pub seek_after :
      ℕ
      → (nonce : Bytes) → (WalReader ops → Option (WalResult (WalReader ops)))
      → WalResult (Option WalRecord × WalReader ops)
      → Option (WalResult (WalReader ops))
  seek_after target_lsn nonce again (err e) = some (err e)
  seek_after target_lsn nonce again (ok (none, r)) = some (err (invalid_record target_lsn))
  seek_after target_lsn nonce again (ok (some found, r)) =
      let later = again r in
      if found.lsn == target_lsn
      then some (do
        record_bytes ← to_bytes lib found r.encryption_key nonce
        ok (record r { offset = wrapping_sub r.offset (length record_bytes) }))
      else later

  unfoldable pub seek_loop :
      ℕ → (nonce : Bytes) → ℕ → WalReader ops → Option (WalResult (WalReader ops))
  unfolding read_next to_bytes
  seek_loop target_lsn nonce zero r = none
  seek_loop target_lsn nonce (suc fuel) r =
      seek_after target_lsn nonce (seek_loop target_lsn nonce fuel) (read_next r)

  unfoldable pub seek_to_lsn :
      ℕ → (nonce : Bytes) → ℕ → WalReader ops → Option (WalResult (WalReader ops))
  unfolding seek_loop
  seek_to_lsn target_lsn nonce fuel r = seek_loop target_lsn nonce fuel (reset r)

-- `active_txns.extend(checkpoint_txns)` after the set was cleared
unfoldable pub extend : List ℕ → List ℕ → List ℕ
extend [] us = us
extend (t ∷ ts) us = extend ts (insert_txn t us)

-- the `match` of the scan's loop
unfoldable pub track : List ℕ → RecordData → List ℕ
unfolding remove_txn extend
track active (begin txn_id) = insert_txn txn_id active
track active (commit txn_id) = remove_txn txn_id active
track active (rollback txn_id) = remove_txn txn_id active
track active (checkpoint lsn checkpoint_txns) = extend checkpoint_txns []
track active (write txn_id table_id op_type key value) = active
track active (prepare txn_id) = active

-- the scan's loop over the records that the reader returns: the last LSN and the active transactions
unfoldable pub scan : ℕ × List ℕ → List WalRecord → ℕ × List ℕ
unfolding track
scan (last_lsn, active) [] = (last_lsn, active)
scan (last_lsn, active) (r ∷ rs) = scan (r.lsn, track active r.content) rs

-- the scan of what `read_next` returned, one after the other
abbrev pub scanned : Option (WalResult (List WalRecord)) → Option (WalResult (ℕ × List ℕ))
scanned none = none
scanned (some (err e)) = some (err e)
scanned (some (ok records)) = some (ok (scan (0, []) records))

module _ {ops : FileOps} (lib : Crates) where
  -- `read_all` of a reader that was just opened, with enough fuel
  unfoldable pub read_opened : WalResult (WalReader ops) → Option (WalResult (List WalRecord))
  unfolding read_all
  read_opened (err e) = some (err e)
  read_opened (ok r) = read_all lib (suc r.file_size) r

module _ (ops : FileOps) (lib : Crates) where
  -- `WalReader::open` and `read_all`
  unfoldable pub read_file : ops.Handle → Option Bytes → Option (WalResult (List WalRecord))
  unfolding read_opened
  read_file file encryption_key = read_opened lib (open_reader ops file encryption_key)

  unfoldable pub scan_wal_file : ops.Handle → Option Bytes → Option (WalResult (ℕ × List ℕ))
  unfolding read_file scan
  scan_wal_file file encryption_key = scanned (read_file file encryption_key)

module _ (ops : FileOps) where
  -- the writer of `WalWriter::open`, with the handle that `open_file` returns and its size
  abbrev pub opened :
      WalWriterConfig
      → ops.Handle
      → ℕ
      → Option (WalResult (ℕ × List ℕ))
      → Option (WalResult (WalWriter ops))
  opened config file file_size none = none
  opened config file file_size (some (err e)) = some (err e)
  opened config file file_size (some (ok (last_lsn, active))) = some (
      ok (record {
        current_lsn = last_lsn + 1;
        current_offset = file_size;
        active_txns = active;
        buffer = [];
        file = file;
        batch_syncs = config.sync_on_write;
      }))

module _ (ops : FileOps) (lib : Crates) where
  -- `WalWriter::open`
  unfoldable pub open_writer : WalWriterConfig → ops.Handle → Option (WalResult (WalWriter ops))
  unfolding scan_wal_file
  open_writer config file = elim (ops.get_size file) [
    | none ↦ some (err io_error)
    | some file_size ↦
        opened ops config file file_size (scan_wal_file ops lib file config.encryption_key)
  ]
