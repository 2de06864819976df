-- ===== src/Wal/Writer/Calls.antt =====
-- The calls that write a record (src/wal/writer.rs), and what each of them adds to the log.
use nanostore.Prelude.{ℕ, ◌+◌, ◌≡◌, refl, ◌∙◌, ap, ◌⊎◌, inl, inr, List, ◌++◌, length, Bool-cases}
use nanostore.Prelude.Bytes.{Bytes}
use nanostore.Prelude.Members.{member}
use nanostore.Vfs.{FileOps, IsFile}
use nanostore.Wal.Error.{WalResult, ok, err, io_error}
use nanostore.Wal.Record.{
  WriteOpType, RecordData, begin, write, commit, rollback, checkpoint, prepare,
}
use nanostore.Wal.Record.Frame.{Crates, to_bytes}
use nanostore.Wal.Reader.{track}
use nanostore.Wal.Writer.{
  WalWriterConfig, WalWriter, Status, Draw, insert_txn, remove_txn, new_record, write_record,
  ◌then_lsn◌, write_begin, write_active, write_operation, write_prepare, write_end, write_rollback,
  commit_flush, finish_commit, write_commit, write_checkpoint,
}
use nanostore.Wal.Writer.Steps.{image, Keeps, Writes, commit_flush-Keeps, write_record-Writes}
use nanostore.Wal.Writer.Active.{Same, extend-Same}

pub data Call : Type 0 where
  begin_txn : (txn_id : ℕ) → Call
  operation : (txn_id table_id : ℕ) → WriteOpType → (key value : Bytes) → Call
  commit_txn : (txn_id : ℕ) → Call
  rollback_txn : (txn_id : ℕ) → Call
  prepare_txn : (txn_id : ℕ) → Call
  checkpoint_log : Call

-- The data of the record that a call writes.
abbrev pub content_of : {ops : FileOps} → WalWriter ops → Call → RecordData
content_of w (begin_txn t) = begin t
content_of w (operation t table_id op_type key value) = write t table_id op_type key value
content_of w (commit_txn t) = commit t
content_of w (rollback_txn t) = rollback t
content_of w (prepare_txn t) = prepare t
content_of w checkpoint_log = checkpoint w.current_lsn w.active_txns

module _ {ops : FileOps} (lib : Crates) (config : WalWriterConfig) where
  unfoldable pub call : WalWriter ops → Call → Draw → WalResult ℕ × WalWriter ops
  unfolding write_begin write_operation write_commit write_rollback write_prepare write_checkpoint
  call w (begin_txn t) draw = write_begin lib config w t draw
  call w (operation t table_id op_type key value) draw =
      write_operation lib config w t table_id op_type key value draw
  call w (commit_txn t) draw = write_commit lib config w t draw
  call w (rollback_txn t) draw = write_rollback lib config w t draw
  call w (prepare_txn t) draw = write_prepare lib config w t draw
  call w checkpoint_log draw = write_checkpoint lib config w draw

module _ {ops : FileOps} (file : IsFile ops) (lib : Crates) (config : WalWriterConfig) where
  -- The record with this data was added, and the active transactions follow it.
  pub record Added (w w' : WalWriter ops) (content : RecordData) (draw : Draw) : Type 0 where
    pub bytes : Bytes
    pub encoded :
        to_bytes lib (new_record config w content draw) config.encryption_key draw.nonce ≡ ok bytes
    pub longer : image file w' ≡ image file w ++ bytes
    pub at_end : file.AtEnd w'.file
    pub next_lsn : w'.current_lsn ≡ w.current_lsn + 1
    pub next_offset : w'.current_offset ≡ w.current_offset + length bytes
    pub tracked : Same w'.active_txns (track w.active_txns content)

  -- A call returns the LSN of the record that it added; or the file failed; or nothing has changed.
  abbrev pub Adds : WalWriter ops → RecordData → Draw → WalResult ℕ × WalWriter ops → Type 0
  Adds w content draw (err e, w') = (e ≡ io_error) ⊎ (w' ≡ w)
  Adds w content draw (ok lsn, w') = (lsn ≡ w.current_lsn) × Added w w' content draw

  -- After `write_record`, with a change of the active transactions.
  written-Adds :
      (w : WalWriter ops) (content : RecordData) (draw : Draw) (change : List ℕ → List ℕ)
      (r : Status × WalWriter ops)
      → Writes file lib config w content draw r
      → Same (change w.active_txns) (track w.active_txns content)
      → Adds w content draw
          (r then_lsn λ w'. (ok w.current_lsn, record w' { active_txns = change w'.active_txns }))
  written-Adds w content draw change (err e, w') written same = written
  written-Adds w content draw change (ok u, w') (bytes, encoded, g) same = (
    refl,
    record {
      bytes = bytes;
      encoded = encoded;
      longer = g.longer;
      at_end = g.at_end;
      next_lsn = g.next_lsn;
      next_offset = g.next_offset;
      tracked = λ t. ap (λ us. member t (change us)) g.same_active ∙ same t;
    },
  )

  -- `write_record` and the change after it.
  record_changed-Adds :
      (w : WalWriter ops) (content : RecordData) (draw : Draw) (change : List ℕ → List ℕ)
      → file.AtEnd w.file
      → Same (change w.active_txns) (track w.active_txns content)
      → Adds w content draw (
          write_record lib config w content draw then_lsn λ w'.
          (ok w.current_lsn, record w' { active_txns = change w'.active_txns }))
  record_changed-Adds w content draw change end same =
      written-Adds w content draw change (write_record lib config w content draw)
        (write_record-Writes file lib config w content draw end) same

  write_active-Adds :
      (w : WalWriter ops) (t : ℕ) (content : RecordData) (draw : Draw)
      → file.AtEnd w.file
      → Same w.active_txns (track w.active_txns content)
      → Adds w content draw (write_active lib config w t content draw)
  unfolding write_active
  write_active-Adds w t content draw end same = elim (Bool-cases (member t w.active_txns)) [
    | inl there ↦ rw there (record_changed-Adds w content draw (λ us. us) end same)
    | inr missing ↦ rw missing (inr refl)
  ]

  write_end-Adds :
      (w : WalWriter ops) (t : ℕ) (content : RecordData) (draw : Draw)
      → file.AtEnd w.file
      → Same (remove_txn t w.active_txns) (track w.active_txns content)
      → Adds w content draw (write_end lib config w t content draw)
  unfolding write_end
  write_end-Adds w t content draw end same = elim (Bool-cases (member t w.active_txns)) [
    | inl there ↦ rw there (record_changed-Adds w content draw (remove_txn t) end same)
    | inr missing ↦ rw missing (inr refl)
  ]

  -- A flush after the record.
  pub kept-Adds :
      (w w' : WalWriter ops) (content : RecordData) (draw : Draw) (lsn : ℕ)
      (r : Status × WalWriter ops)
      → (lsn ≡ w.current_lsn) × Added w w' content draw
      → Keeps file w' r
      → Adds w content draw (r then_lsn λ w''. (ok lsn, w''))
  kept-Adds w w' content draw lsn (err e, w'') a k = inl k
  kept-Adds w w' content draw lsn (ok u, w'') (e, a) k = (
    e,
    record {
      bytes = a.bytes;
      encoded = a.encoded;
      longer = k.same_image ∙ a.longer;
      at_end = k.at_end;
      next_lsn = k.same_lsn ∙ a.next_lsn;
      next_offset = k.same_offset ∙ a.next_offset;
      tracked = λ t. ap (member t) k.same_active ∙ a.tracked t;
    },
  )

  finish_commit-Adds :
      (w : WalWriter ops) (content : RecordData) (draw : Draw) (r : WalResult ℕ × WalWriter ops)
      → Adds w content draw r
      → Adds w content draw (finish_commit lib config r)
  finish_commit-Adds w content draw (err e, w') a = a
  finish_commit-Adds w content draw (ok lsn, w') a =
      kept-Adds w w' content draw lsn (commit_flush lib config w') a
        (commit_flush-Keeps file lib config w' a.1.at_end)

  pub call-Adds :
      (w : WalWriter ops) (c : Call) (draw : Draw)
      → file.AtEnd w.file
      → Adds w (content_of w c) draw (call lib config w c draw)
  unfolding call track
  call-Adds w (begin_txn t) draw end = elim (Bool-cases (member t w.active_txns)) [
    | inl there ↦ rw there (inr refl)
    | inr new ↦ rw new (record_changed-Adds w (begin t) draw (insert_txn t) end (λ u. refl))
  ]
  call-Adds w (operation t table_id op_type key value) draw end =
      write_active-Adds w t (write t table_id op_type key value) draw end (λ u. refl)
  call-Adds w (prepare_txn t) draw end = write_active-Adds w t (prepare t) draw end (λ u. refl)
  call-Adds w (commit_txn t) draw end =
      finish_commit-Adds w (commit t) draw (write_end lib config w t (commit t) draw)
        (write_end-Adds w t (commit t) draw end (λ u. refl))
  call-Adds w (rollback_txn t) draw end = write_end-Adds w t (rollback t) draw end (λ u. refl)
  call-Adds w checkpoint_log draw end =
      record_changed-Adds w (content_of w checkpoint_log) draw (λ us. us) end
        (extend-Same w.active_txns)
