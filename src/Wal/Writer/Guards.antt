-- ===== src/Wal/Writer/Guards.antt =====
-- Which records the writer (src/wal/writer.rs) accepts of which transactions.
use mathlib.Core.Path.{subst}
use nanostore.Prelude.{ℕ, ◌≡◌, refl, true, false, List, Bool-cases, inl, inr}
use nanostore.Prelude.Members.{member}
use nanostore.Vfs.{FileOps}
use nanostore.Wal.Error.{WalResult, ok, err}
use nanostore.Wal.Record.{RecordData, begin, write, commit, rollback, checkpoint, prepare}
use nanostore.Wal.Record.Frame.{Crates}
use nanostore.Wal.Writer.{
  WalWriterConfig, WalWriter, Draw, write_begin, write_active, write_end, finish_commit,
  write_checkpoint,
}
use nanostore.Wal.Writer.Active.{Same}
use nanostore.Wal.Writer.Calls.{
  Call, begin_txn, operation, commit_txn, rollback_txn, prepare_txn, checkpoint_log, content_of,
  call,
}

-- A record that is written while the transactions `us` are active.
abbrev pub Allowed : List ℕ → RecordData → Type 0
Allowed us (begin t) = member t us ≡ false
Allowed us (write t table_id op_type key value) = member t us ≡ true
Allowed us (commit t) = member t us ≡ true
Allowed us (rollback t) = member t us ≡ true
Allowed us (checkpoint lsn active_txns) = Same active_txns us
Allowed us (prepare t) = member t us ≡ true

-- A call that returns an LSN was allowed.
abbrev Guarded : {ops : FileOps} → WalWriter ops → RecordData → WalResult ℕ × WalWriter ops → Type 0
Guarded w content (err e, w') = Unit
Guarded w content (ok lsn, w') = Allowed w.active_txns content

always :
    {ops : FileOps} (w : WalWriter ops) (content : RecordData) (r : WalResult ℕ × WalWriter ops)
    → Allowed w.active_txns content
    → Guarded w content r
always w content (err e, w') a = tt
always w content (ok lsn, w') a = a

module _ {ops : FileOps} (lib : Crates) (config : WalWriterConfig) where
  write_active-Guarded :
      (w : WalWriter ops) (t : ℕ) (content : RecordData) (draw : Draw)
      → (member t w.active_txns ≡ true → Allowed w.active_txns content)
      → Guarded w content (write_active lib config w t content draw)
  unfolding write_active
  write_active-Guarded w t content draw a = elim (Bool-cases (member t w.active_txns)) [
    | inl there ↦ rw there (always w content _ (a there))
    | inr missing ↦ rw missing tt
  ]

  write_end-Guarded :
      (w : WalWriter ops) (t : ℕ) (content : RecordData) (draw : Draw)
      → (member t w.active_txns ≡ true → Allowed w.active_txns content)
      → Guarded w content (write_end lib config w t content draw)
  unfolding write_end
  write_end-Guarded w t content draw a = elim (Bool-cases (member t w.active_txns)) [
    | inl there ↦ rw there (always w content _ (a there))
    | inr missing ↦ rw missing tt
  ]

  finish_commit-Guarded :
      (w : WalWriter ops) (content : RecordData) (r : WalResult ℕ × WalWriter ops)
      → Guarded w content r
      → Guarded w content (finish_commit lib config r)
  finish_commit-Guarded w content (err e, w') g = g
  finish_commit-Guarded w content (ok lsn, w') g =
      always w content (finish_commit lib config (ok lsn, w')) g

  call-Guarded :
      (w : WalWriter ops) (c : Call) (draw : Draw)
      → Guarded w (content_of w c) (call lib config w c draw)
  unfolding call
  call-Guarded w (begin_txn t) draw = elim (Bool-cases (member t w.active_txns)) [
    | inl there ↦ rw (there, write_begin) tt
    | inr new ↦ always w (begin t) (write_begin lib config w t draw) new
  ]
  call-Guarded w (operation t table_id op_type key value) draw =
      write_active-Guarded w t (write t table_id op_type key value) draw (λ a. a)
  call-Guarded w (prepare_txn t) draw = write_active-Guarded w t (prepare t) draw (λ a. a)
  call-Guarded w (commit_txn t) draw =
      finish_commit-Guarded w (commit t) (write_end lib config w t (commit t) draw)
        (write_end-Guarded w t (commit t) draw (λ a. a))
  call-Guarded w (rollback_txn t) draw = write_end-Guarded w t (rollback t) draw (λ a. a)
  call-Guarded w checkpoint_log draw =
      always w (content_of w checkpoint_log) (write_checkpoint lib config w draw) (λ u. refl)

  pub call-Allowed :
      (w w' : WalWriter ops) (c : Call) (draw : Draw) (lsn : ℕ)
      → call lib config w c draw ≡ (ok lsn, w')
      → Allowed w.active_txns (content_of w c)
  call-Allowed w w' c draw lsn e = subst (Guarded w (content_of w c)) e (call-Guarded w c draw)
