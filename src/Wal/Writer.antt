-- ===== src/Wal/Writer.antt =====
-- src/wal/writer.rs: the writer of the log, over the file interface. Its two locks are held through
-- each call, so that calls come one after the other. The time stamp and the nonce of a record are
-- arguments. Under group commit, the flush of the batch that holds the request is taken when the
-- request is made: `submit_commit` (src/wal/commit.rs) returns after it.
pub mod Steps
pub mod Active
pub mod Calls
pub mod Log
pub mod Reopen
pub mod Cursor
pub mod Guards
pub mod Recover
use nanostore.Prelude.{
  ℕ, ◌+◌, ◌≡◌, ◌≢◌, Bool, true, false, not, ◌&&◌, ◌||◌, Option, List, [], ◌∷◌, ◌++◌, length, ltb,
  leb, ◌==◌, if◌then◌else◌,
}
use nanostore.Prelude.Bytes.{Bytes}
use nanostore.Prelude.Members.{member}
use nanostore.Pager.Config.{CompressionType, EncryptionType}
use nanostore.Vfs.{FileOps, IoResult, done, failed}
use nanostore.Wal.Error.{
  WalResult, ok, err, io_error, transaction_not_found, transaction_already_exists, wal_full, ◌>>=◌,
}
use nanostore.Wal.Record.{
  WriteOpType, RecordData, begin, write, commit, rollback, checkpoint, prepare,
}
use nanostore.Wal.Record.Frame.{Crates, WalRecord, to_bytes}

pub record WalWriterConfig : Type 0 where
  pub buffer_size : ℕ
  pub sync_on_write : Bool
  pub max_wal_size : ℕ
  pub compression : CompressionType
  pub encryption : EncryptionType
  pub encryption_key : Option Bytes
  pub group_commit : Bool

-- `HashSet::insert` and `HashSet::remove`
abbrev pub insert_txn : ℕ → List ℕ → List ℕ
insert_txn t us = if member t us then us else t ∷ us

unfoldable pub remove_txn : ℕ → List ℕ → List ℕ
remove_txn t [] = []
remove_txn t (u ∷ us) = if u == t then remove_txn t us else u ∷ remove_txn t us

-- what is drawn for a record: its time stamp and its nonce
pub record Draw : Type 0 where
  pub timestamp : ℕ
  pub nonce : Bytes

-- `WalResult<()>`
abbrev pub Status : Type 0
Status = WalResult Unit

abbrev pub should_flush : WalWriterConfig → Bytes → Bool
should_flush config buffer =
    leb config.buffer_size (length buffer) || (config.sync_on_write && not config.group_commit)

module _ (ops : FileOps) where
  -- `WalWriterState`, the file, and whether the flush callback of the group commit syncs the file
  pub record WalWriter : Type 0 where
    pub current_lsn : ℕ
    pub current_offset : ℕ
    pub active_txns : List ℕ
    pub buffer : Bytes
    pub file : ops.Handle
    pub batch_syncs : Bool

module _ {ops : FileOps} where
  -- `WalWriter::create`, with the file that `create_file` returns
  abbrev pub create : ops.Handle → WalWriter ops
  create file = record {
    current_lsn = 1;
    current_offset = 0;
    active_txns = [];
    buffer = [];
    file = file;
    batch_syncs = true;
  }

  -- the end of `flush_internal`
  abbrev pub flushed : IoResult × ops.Handle → WalWriter ops → Status × WalWriter ops
  flushed (done, file) w = (ok tt, record w { buffer = []; file = file })
  flushed (failed, file) w = (err io_error, record w { file = file })

  -- after `write_all`: an error, or `file.sync_data()?` where `sync` asks for it
  abbrev pub synced : Bool → IoResult × ops.Handle → WalWriter ops → Status × WalWriter ops
  synced sync (failed, file) w = (err io_error, record w { file = file })
  synced true (done, file) w = flushed (ops.sync_data file) w
  synced false (done, file) w = flushed (done, file) w

  -- `file.write_all(&state.buffer)?`, the sync and `buffer.clear()`
  unfoldable pub write_and_sync : Bool → WalWriter ops → Status × WalWriter ops
  write_and_sync sync w = synced sync (ops.write_all w.file w.buffer) w

  -- `flush` and `flush_internal`
  unfoldable pub flush : WalWriterConfig → WalWriter ops → Status × WalWriter ops
  unfolding write_and_sync
  flush config w =
      if leb (length w.buffer) 0
      then (ok tt, w)
      else write_and_sync (config.sync_on_write && not config.group_commit) w

  -- the flush callback of the group commit: that of `create` syncs, that of `open` if each write does
  unfoldable pub flush_batch : WalWriter ops → Status × WalWriter ops
  unfolding write_and_sync
  flush_batch w = if leb (length w.buffer) 0 then (ok tt, w) else write_and_sync w.batch_syncs w

  -- the end of `write_record_internal`
  abbrev pub advance : ℕ → Status × WalWriter ops → Status × WalWriter ops
  advance n (err e, w) = (err e, w)
  advance n (ok u, w) =
      (ok tt, record w { current_lsn = w.current_lsn + 1; current_offset = w.current_offset + n })

  -- `write_record_internal` from the test of the size on
  unfoldable pub append_bytes : WalWriterConfig → WalWriter ops → Bytes → Status × WalWriter ops
  unfolding flush
  append_bytes config w bytes =
      let buffered = record w { buffer = w.buffer ++ bytes } in
      if ltb config.max_wal_size (w.current_offset + length bytes)
      then (err (wal_full (w.current_offset + length bytes) config.max_wal_size), w)
      else advance (length bytes)
          (if should_flush config buffered.buffer then flush config buffered else (ok tt, buffered))

  abbrev pub new_record : WalWriterConfig → WalWriter ops → RecordData → Draw → WalRecord
  new_record config w content draw = record {
    lsn = w.current_lsn;
    timestamp = draw.timestamp;
    content = content;
    compression = config.compression;
    encryption = config.encryption;
  }

  -- `record.to_bytes(..)?` and the rest of `write_record_internal`
  unfoldable pub append_encoded :
      WalWriterConfig → WalWriter ops → WalResult Bytes → Status × WalWriter ops
  unfolding append_bytes
  append_encoded config w (err e) = (err e, w)
  append_encoded config w (ok bytes) = append_bytes config w bytes

  -- `WalRecord::new` and `write_record_internal`
  unfoldable pub write_record :
      Crates → WalWriterConfig → WalWriter ops → RecordData → Draw → Status × WalWriter ops
  unfolding append_encoded
  write_record lib config w content draw =
      append_encoded config w
        (to_bytes lib (new_record config w content draw) config.encryption_key draw.nonce)

-- The rest of a call after a status: an error is returned, a success goes on.
infixl 5 ◌then_lsn◌
abbrev pub ◌then_lsn◌ : {W : Type 0} → Status × W → (W → WalResult ℕ × W) → WalResult ℕ × W
(err e, w) then_lsn rest = (err e, w)
(ok u, w) then_lsn rest = rest w

module _ {ops : FileOps} (lib : Crates) (config : WalWriterConfig) where
  unfoldable pub write_begin : WalWriter ops → ℕ → Draw → WalResult ℕ × WalWriter ops
  unfolding write_record
  write_begin w txn_id draw =
      if member txn_id w.active_txns
      then (err (transaction_already_exists txn_id), w)
      else write_record lib config w (begin txn_id) draw then_lsn λ w'.
          (ok w.current_lsn, record w' { active_txns = insert_txn txn_id w'.active_txns })

  -- the record of a transaction that must be active and stays so: `write_operation` and
  -- `write_prepare`
  unfoldable pub write_active : WalWriter ops → ℕ → RecordData → Draw → WalResult ℕ × WalWriter ops
  unfolding write_record
  write_active w txn_id content draw =
      if not (member txn_id w.active_txns)
      then (err (transaction_not_found txn_id), w)
      else write_record lib config w content draw then_lsn λ w'. (ok w.current_lsn, w')

  unfoldable pub write_operation :
      WalWriter ops → ℕ → ℕ → WriteOpType → Bytes → Bytes → Draw → WalResult ℕ × WalWriter ops
  unfolding write_active
  write_operation w txn_id table_id op_type key value draw =
      write_active w txn_id (write txn_id table_id op_type key value) draw

  unfoldable pub write_prepare : WalWriter ops → ℕ → Draw → WalResult ℕ × WalWriter ops
  unfolding write_active
  write_prepare w txn_id draw = write_active w txn_id (prepare txn_id) draw

  -- the record of a transaction that must be active and ends with it
  unfoldable pub write_end : WalWriter ops → ℕ → RecordData → Draw → WalResult ℕ × WalWriter ops
  unfolding write_record remove_txn
  write_end w txn_id content draw =
      if not (member txn_id w.active_txns)
      then (err (transaction_not_found txn_id), w)
      else write_record lib config w content draw then_lsn λ w'.
          (ok w.current_lsn, record w' { active_txns = remove_txn txn_id w'.active_txns })

  unfoldable pub write_rollback : WalWriter ops → ℕ → Draw → WalResult ℕ × WalWriter ops
  unfolding write_end
  write_rollback w txn_id draw = write_end w txn_id (rollback txn_id) draw

  -- the end of `write_commit`: the batch or the buffer is flushed
  unfoldable pub commit_flush : WalWriter ops → Status × WalWriter ops
  unfolding flush flush_batch
  commit_flush w =
      if config.group_commit
      then flush_batch w
      else if config.sync_on_write
      then flush config w
      else (ok tt, w)

  -- the end of a call whose record was written under `lsn`
  abbrev pub finish_commit : WalResult ℕ × WalWriter ops → WalResult ℕ × WalWriter ops
  finish_commit (err e, w) = (err e, w)
  finish_commit (ok lsn, w) = commit_flush w then_lsn λ w'. (ok lsn, w')

  unfoldable pub write_commit : WalWriter ops → ℕ → Draw → WalResult ℕ × WalWriter ops
  unfolding write_end commit_flush
  write_commit w txn_id draw = finish_commit (write_end w txn_id (commit txn_id) draw)

  -- The order of the set is not specified: that of the list stands for any.
  unfoldable pub write_checkpoint : WalWriter ops → Draw → WalResult ℕ × WalWriter ops
  unfolding write_record
  write_checkpoint w draw =
      write_record lib config w (checkpoint w.current_lsn w.active_txns) draw then_lsn λ w'.
      (ok w.current_lsn, w')

module _ {ops : FileOps} where
  -- the end of `truncate`
  abbrev pub truncated : IoResult × ops.Handle → WalWriter ops → Status × WalWriter ops
  truncated (failed, file) w = (err io_error, record w { file = file })
  truncated (done, file) w = (ok tt, record w { current_offset = 0; file = file })

  -- `truncate` after the pending bytes were written
  abbrev pub truncate_written : IoResult × ops.Handle → WalWriter ops → Status × WalWriter ops
  truncate_written (failed, file) w = (err io_error, record w { file = file })
  truncate_written (done, file) w = truncated (ops.truncate file) (record w { buffer = [] })

  unfoldable pub truncate : WalWriter ops → Status × WalWriter ops
  truncate w =
      if leb (length w.buffer) 0
      then truncated (ops.truncate w.file) w
      else truncate_written (ops.write_all w.file w.buffer) w
