-- ===== src/Tests/Reads.antt =====
-- Files that the log's reader and writer (src/wal/reader.rs, src/wal/writer.rs) meet: files that are
-- no log, torn logs, and logs that were opened again or truncated.
use mathlib.Core.Path.{subst}
use nanostore.Prelude.{
  ℕ, ◌≡◌, ◌+◌, ◌≤◌, ◌<◌, refl, sym, ap, none, some, List, [], ◌∷◌, ◌++◌, arith, length, take, drop,
  get_or, ltb, if◌then◌else◌,
}
use nanostore.Prelude.Bytes.{Bytes, to_le}
use nanostore.Pager.Config.{uncompressed, unencrypted}
use nanostore.Vfs.Memory.{zeros, read_at_offset, write_to_offset, memory_ops, open_file}
use nanostore.Vfs.Memory.Laws.{memory_file, write_to_offset_lem}
use nanostore.Wal.Error.{WalResult, ok, err, corrupted_wal, incomplete_record}
use nanostore.Wal.Record.{RecordData, serialize_data}
use nanostore.Wal.Record.Frame.{WalRecord, compress, encrypt, frame, to_bytes}
use nanostore.Wal.Writer.{
  WalWriter, new_record, flush, write_and_sync, append_bytes, append_encoded, write_record,
  write_begin, truncate,
}
use nanostore.Wal.Writer.Calls.{begin_txn, content_of, call}
use nanostore.Wal.Reader.{
  WalReader, read_all, seek_to_lsn, read_file, reader_of, open_writer, scan_wal_file, scan, track,
  opened, scanned,
}
use nanostore.Wal.Reader.Termination.{reader_loops-end}
use nanostore.Wal.Reader.Frames.{IsFramed, framed, nothing}
use nanostore.Wal.Reader.Whole.{read_all-torn, read_all-whole}
use nanostore.Wal.Writer.Cursor.{reopened_overwrites, truncated_pads}
use nanostore.Tests.Records.{plain, plain-IsSound}
use nanostore.Tests.Logs.{config, draw, w₀, w₁, raw, raw_lem}

-- A reader of a file that is no log.
reader_loops-end_example :
    ((result : WalResult (List WalRecord)) × (read_all plain 100
          (reader_of memory_ops (open_file (1 ∷ 2 ∷ [])) none 2)
        ≡ some result))
    × ((result : WalResult (WalReader memory_ops)) × (seek_to_lsn plain 5 draw.nonce 100
            (reader_of memory_ops (open_file (1 ∷ 2 ∷ [])) none 2)
          ≡ some result))
reader_loops-end_example =
    reader_loops-end plain (reader_of memory_ops (open_file (1 ∷ 2 ∷ [])) none 2) 5 draw.nonce 100
      (ground arith)

-- A write over the end of a file.
write_to_offset_lem_example :
    (get_or (write_to_offset (open_file (1 ∷ 2 ∷ 3 ∷ [])) 2 (8 ∷ 9 ∷ [])).buffer 3 0 ≡ 9)
    × (length (write_to_offset (open_file (1 ∷ 2 ∷ 3 ∷ [])) 2 (8 ∷ 9 ∷ [])).buffer ≡ 4)
    × (read_at_offset (write_to_offset (open_file (1 ∷ 2 ∷ 3 ∷ [])) 2 (8 ∷ 9 ∷ [])) 2 2
        ≡ 8 ∷ 9 ∷ [])
write_to_offset_lem_example = write_to_offset_lem (open_file (1 ∷ 2 ∷ 3 ∷ [])) 2 (8 ∷ 9 ∷ []) 3

-- The first record framed, and a file where the second is cut off.
abbrev first : WalRecord
first = new_record config w₀ (content_of w₀ (begin_txn 7)) draw

first-IsFramed : IsFramed plain none first (raw first)
unfolding serialize_data frame to_le
first-IsFramed = record {
  nonce = draw.nonce;
  encoded = raw_lem 1 (RecordData.begin 7);
  lsn_fits = ground arith;
  timestamp_fits = ground arith;
  content_fits = ground arith;
  length-nonce = refl;
  long = ground arith;
  short = ground arith;
}

first_size : 50 < length (raw first)
unfolding serialize_data frame to_le
first_size = ground arith

read_all-torn_example :
    read_file memory_ops plain (open_file ((raw first ++ []) ++ take 50 (raw first))) none
    ≡ some (
        if ltb 50 31
        then ok (first ∷ [])
        else err (corrupted_wal (length (raw first ++ [])) incomplete_record))
read_all-torn_example =
    read_all-torn plain plain-IsSound memory_file
      (open_file ((raw first ++ []) ++ take 50 (raw first))) none (first ∷ []) (raw first ++ [])
      first (raw first) 50 (framed first-IsFramed nothing) first-IsFramed first_size refl

-- A log of one record that is opened again, and the next record.
abbrev log_bytes : Bytes
log_bytes = raw first ++ []

abbrev reopened : WalWriter memory_ops
reopened = record {
  current_lsn = 2;
  current_offset = length log_bytes;
  active_txns = 7 ∷ [];
  buffer = [];
  file = open_file log_bytes;
  batch_syncs = config.sync_on_write;
}

reopened_lem : open_writer memory_ops plain config (open_file log_bytes) ≡ some (ok reopened)
unfolding open_writer scan_wal_file scan track
reopened_lem =
    ap (λ o. opened memory_ops config (open_file log_bytes) (length log_bytes) (scanned o))
      (read_all-whole plain plain-IsSound memory_file (open_file log_bytes) none (first ∷ [])
        (framed first-IsFramed nothing))

abbrev next : Bytes
next = raw (new_record config reopened (RecordData.begin 8) draw)

next_size :
    (0 < length next)
    × (length next ≤ length log_bytes)
    × (length log_bytes + length next ≤ 1000000)
    × (length next ≤ 1000000)
unfolding serialize_data frame to_le
next_size = ground arith

reopened_overwrites_example :
    (write_record plain config reopened (RecordData.begin 8) draw).1.file.buffer
    ≡ next ++ drop (length next) log_bytes
reopened_overwrites_example =
    reopened_overwrites plain config log_bytes next reopened (RecordData.begin 8) draw reopened_lem
      (refl, refl) (raw_lem 2 (RecordData.begin 8)) next_size.0 next_size.1 next_size.2

abbrev numbered : ℕ → WalRecord
numbered n = record {
  lsn = n;
  timestamp = draw.timestamp;
  content = RecordData.begin 8;
  compression = uncompressed;
  encryption = unencrypted;
}

-- The writer of one record is truncated, and writes another one.
w₁_truncated : (truncate w₁).1.current_lsn ≡ 2
unfolding truncate call write_begin write_record append_encoded append_bytes flush write_and_sync
    to_bytes compress encrypt frame serialize_data to_le
w₁_truncated = refl

truncated_pads_example :
    (write_record plain config (truncate w₁).1 (RecordData.begin 8) draw).1.file.buffer
    ≡ zeros (w₁.file.cursor + length w₁.buffer) ++ next
truncated_pads_example =
    truncated_pads plain config next w₁ (RecordData.begin 8) draw (refl, refl)
      (subst (λ n. to_bytes plain (numbered n) none draw.nonce ≡ ok (raw (numbered 2)))
        (sym w₁_truncated) (raw_lem 2 (RecordData.begin 8)))
      next_size.0 next_size.3
