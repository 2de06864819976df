-- ===== src/Tests/Logs.antt =====
-- The writer and the reader of the log (src/wal/writer.rs, src/wal/reader.rs) over a file in memory.
use mathlib.Core.Path.{subst}
use nanostore.Prelude.{
  ℕ, ◌≡◌, ◌≢◌, ◌≤◌, ◌<◌, ◌^◌, refl, sym, ◌∙◌, true, false, none, some, List, [], ◌∷◌, ◌++◌, arith,
  length, length-append, replicate,
}
use nanostore.Prelude.Bytes.{Bytes, to_le}
use nanostore.Prelude.Members.{member}
use nanostore.Pager.Config.{uncompressed, unencrypted}
use nanostore.Vfs.Memory.{memory_ops, create_file, open_file}
use nanostore.Vfs.Memory.Laws.{memory_file}
use nanostore.Wal.Error.{ok, err, ok-injective, io_error, transaction_already_exists}
use nanostore.Wal.Record.{RecordData, serialize_data}
use nanostore.Wal.Record.Data.{InRange}
use nanostore.Wal.Record.Frame.{WalRecord, min_size, compress, encrypt, frame, to_bytes}
use nanostore.Wal.Writer.{
  WalWriterConfig, WalWriter, Draw, create, new_record, flush, write_and_sync, append_bytes,
  append_encoded, write_record, write_begin, remove_txn, write_end, commit_flush, write_commit,
}
use nanostore.Wal.Writer.Calls.{Call, begin_txn, commit_txn, content_of, call}
use nanostore.Wal.Recovery.{RecoveryResult, Outcome, recover}
use nanostore.Wal.Writer.Recover.{contents, recover-Written}
use nanostore.Wal.Writer.Reopen.{read_all-Written, open_writer-Written}
use nanostore.Wal.Reader.{read_file, open_writer}
use nanostore.Wal.Writer.Log.{Fits, Written, created, accepted, refused, IsLog, Written-IsLog}
use nanostore.Tests.Records.{plain, plain-IsSound}

abbrev pub config : WalWriterConfig
config = record {
  buffer_size = 65536;
  sync_on_write = true;
  max_wal_size = 1000000;
  compression = uncompressed;
  encryption = unencrypted;
  encryption_key = none;
  group_commit = false;
}

abbrev pub draw : Draw
draw = record { timestamp = 1700000000; nonce = replicate 12 9 }

abbrev pub w₀ : WalWriter memory_ops
w₀ = create create_file

abbrev pub w₁ : WalWriter memory_ops
w₁ = (call plain config w₀ (begin_txn 7) draw).1

abbrev w₂ : WalWriter memory_ops
w₂ = (call plain config w₁ (commit_txn 7) draw).1

-- The records are written and synced, and a second begin is refused.
w₁_lem : call plain config w₀ (begin_txn 7) draw ≡ (ok 1, w₁)
unfolding call write_begin write_record append_encoded append_bytes flush write_and_sync to_bytes
    compress encrypt frame serialize_data to_le
w₁_lem = refl

again_lem : call plain config w₁ (begin_txn 7) draw ≡ (err (transaction_already_exists 7), w₁)
unfolding call write_begin write_record append_encoded append_bytes flush write_and_sync to_bytes
    compress encrypt frame serialize_data to_le
again_lem = refl

w₂_lem : call plain config w₁ (commit_txn 7) draw ≡ (ok 2, w₂)
unfolding call write_begin write_record append_encoded append_bytes flush write_and_sync to_bytes
    compress encrypt frame serialize_data to_le write_commit write_end commit_flush remove_txn
w₂_lem = refl

w₂_flushed : flush config w₂ ≡ (ok tt, w₂)
unfolding call write_begin write_record append_encoded append_bytes flush write_and_sync to_bytes
    compress encrypt frame serialize_data to_le write_commit write_end commit_flush remove_txn
w₂_flushed = refl

-- The bytes of a record without compression and encryption.
abbrev pub raw : WalRecord → Bytes
raw r =
    frame plain r (length (serialize_data r.content)) (serialize_data r.content) ++ replicate 32 0

pub raw_lem :
    (lsn : ℕ) (content : RecordData)
    → to_bytes plain
        (record {
          lsn = lsn;
          timestamp = draw.timestamp;
          content = content;
          compression = uncompressed;
          encryption = unencrypted;
        })
        none
        draw.nonce
      ≡ ok (
          raw (record {
            lsn = lsn;
            timestamp = draw.timestamp;
            content = content;
            compression = uncompressed;
            encryption = unencrypted;
          }))
unfolding to_bytes compress encrypt
raw_lem lsn content = refl

-- A small record of one transaction fits.
fits_lem :
    (w : WalWriter memory_ops) (c : Call)
    → w.current_lsn < 2 ^ 64
    → InRange (content_of w c)
    → length (serialize_data (content_of w c)) ≡ 8
    → Fits plain config (new_record config w (content_of w c) draw) draw
unfolding frame to_le
fits_lem w c l r e = record {
  lsn_fits = l;
  timestamp_fits = ground arith;
  content_fits = r;
  length-nonce = refl;
  sized = λ bytes b.
      let raw_bytes = raw (new_record config w (content_of w c) draw) in
      let size = length-append (serialize_data (content_of w c)) (replicate 32 0) in
      let same : raw_bytes ≡ bytes =
        ok-injective (sym (raw_lem w.current_lsn (content_of w c)) ∙ b) in
      subst (λ x. (min_size ≤ length x) × (length x < 2 ^ 32)) same
        (omega (arith, size, e), omega (arith, size, e));
}

abbrev records : List WalRecord
records =
    new_record config w₀ (content_of w₀ (begin_txn 7)) draw
    ∷ new_record config w₁ (content_of w₁ (commit_txn 7)) draw
    ∷ []

serialize_id :
    (w : WalWriter memory_ops) (t : ℕ) → length (serialize_data (content_of w (begin_txn t))) ≡ 8
unfolding serialize_data to_le
serialize_id w t = refl

serialize_end :
    (w : WalWriter memory_ops) (t : ℕ) → length (serialize_data (content_of w (commit_txn t))) ≡ 8
unfolding serialize_data to_le
serialize_end w t = refl

not_io : transaction_already_exists 7 ≢ io_error
not_io e = cc

w₁_lsn : w₁.current_lsn < 2 ^ 64
unfolding call write_begin write_record append_encoded append_bytes flush write_and_sync to_bytes
    compress encrypt frame serialize_data to_le
w₁_lsn = ground arith

written : Written memory_file plain config w₂ records
written =
    accepted (commit_txn 7) draw 2
      (refused (begin_txn 7) draw (transaction_already_exists 7)
        (accepted (begin_txn 7) draw 1 (created create_file refl refl)
          (fits_lem w₀ (begin_txn 7) (ground arith) (ground arith) (serialize_id w₀ 7)) w₁_lem)
        again_lem not_io)
      (fits_lem w₁ (commit_txn 7) w₁_lsn (ground arith) (serialize_end w₁ 7)) w₂_lem

Written-IsLog_example : IsLog memory_file plain config w₂ records
Written-IsLog_example = Written-IsLog memory_file plain config w₂ records written

read_all-Written_example :
    read_file memory_ops plain (open_file w₂.file.buffer) none ≡ some (ok records)
read_all-Written_example =
    read_all-Written memory_file plain plain-IsSound config w₂ w₂ records (open_file w₂.file.buffer)
      written w₂_flushed refl

open_writer-Written_example :
    (reopened : WalWriter memory_ops) × (open_writer memory_ops plain config
        (open_file w₂.file.buffer)
      ≡ some (ok reopened))
    × (reopened.current_lsn ≡ w₂.current_lsn)
    × (reopened.current_offset ≡ w₂.current_offset)
    × ((t : ℕ) → member t reopened.active_txns ≡ member t w₂.active_txns)
open_writer-Written_example =
    open_writer-Written memory_file plain plain-IsSound config w₂ w₂ records
      (open_file w₂.file.buffer) written w₂_flushed refl

recover-Written_example :
    (result : RecoveryResult) × (recover (contents records) ≡ Outcome.ok result)
    × ((t : ℕ) → member t result.active_transactions ≡ member t w₂.active_txns)
recover-Written_example = recover-Written memory_file plain config w₂ records written
