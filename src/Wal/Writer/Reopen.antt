-- ===== src/Wal/Writer/Reopen.antt =====
-- A log that is read or opened again (src/wal/writer.rs, src/wal/reader.rs).
use mathlib.Core.List.{append-nil}
use mathlib.Core.Path.{subst}
use nanostore.Prelude.{ℕ, ◌+◌, ◌≡◌, sym, ap, ◌∙◌, some, List, [], ◌++◌, length, arith}
use nanostore.Prelude.Members.{member}
use nanostore.Vfs.{FileOps, IsFile}
use nanostore.Wal.Error.{ok}
use nanostore.Wal.Record.Frame.{Crates, IsSound, WalRecord}
use nanostore.Wal.Reader.{read_file, scan, scan_wal_file, scanned, opened, open_writer}
use nanostore.Wal.Reader.Frames.{Frames}
use nanostore.Wal.Reader.Whole.{read_all-whole}
use nanostore.Wal.Writer.{WalWriterConfig, WalWriter, flush}
use nanostore.Wal.Writer.Steps.{image}
use nanostore.Wal.Writer.Log.{Written, IsLog, Written-IsLog, flush-Kept}

module _ {ops : FileOps} (file : IsFile ops) (lib : Crates) (sound : IsSound lib)
    (config : WalWriterConfig) where
  -- After a flush the file alone holds the records.
  flushed_frames :
      (w w' : WalWriter ops) (rs : List WalRecord)
      → Written file lib config w rs
      → flush config w ≡ (ok tt, w')
      → IsLog file lib config w' rs × (image file w' ≡ file.content w'.file)
  flushed_frames w w' rs written e =
      let l = Written-IsLog file lib config w rs written in
      let l' = Written-IsLog file lib config w' rs (Written.flushed written e) in
      let (_, empty) = flush-Kept file lib config w w' l.at_end e in
      let whole : image file w' ≡ file.content w'.file =
        ap (λ b. file.content w'.file ++ b) empty ∙ append-nil (file.content w'.file) in
      (l', whole)

  -- After any sequence of calls and flushes from an empty file that ends with a flush, where no
  -- operation on the file fails and the fields of the written records fit, reading the file from the
  -- start, through any handle with the same content, returns the records of the calls that succeeded,
  -- in their order.
  pub read_all-Written :
      (w w' : WalWriter ops) (rs : List WalRecord) (h : ops.Handle)
      → Written file lib config w rs
      → flush config w ≡ (ok tt, w')
      → file.content h ≡ file.content w'.file
      → read_file ops lib h config.encryption_key ≡ some (ok rs)
  read_all-Written w w' rs h written e same =
      let (l, whole) = flushed_frames w w' rs written e in
      read_all-whole lib sound file h config.encryption_key rs
        (subst (Frames lib config.encryption_key rs) (whole ∙ sym same) l.frames)

  -- Under the same conditions, opening the file again gives a writer with the LSN and the offset of
  -- the first one and the same active transactions.
  pub open_writer-Written :
      (w w' : WalWriter ops) (rs : List WalRecord) (h : ops.Handle)
      → Written file lib config w rs
      → flush config w ≡ (ok tt, w')
      → file.content h ≡ file.content w'.file
      → (reopened : WalWriter ops) × (open_writer ops lib config h ≡ some (ok reopened))
        × (reopened.current_lsn ≡ w'.current_lsn)
        × (reopened.current_offset ≡ w'.current_offset)
        × ((t : ℕ) → member t reopened.active_txns ≡ member t w'.active_txns)
  unfolding open_writer scan_wal_file
  open_writer-Written w w' rs h written e same =
      let (l, whole) = flushed_frames w w' rs written e in
      let found = scan (0, []) rs in
      (
        record {
          current_lsn = found.0 + 1;
          current_offset = length (file.content h);
          active_txns = found.1;
          buffer = [];
          file = h;
          batch_syncs = config.sync_on_write;
        },
        rw (open_writer, file.get_size_lem h)
            (ap (λ o. opened ops config h (length (file.content h)) (scanned o))
              (read_all-Written w w' rs h written e same)),
        omega (arith, l.last_lsn, l.next_lsn),
        ap length (same ∙ sym whole) ∙ sym l.offset,
        λ t. sym (l.active t),
      )
