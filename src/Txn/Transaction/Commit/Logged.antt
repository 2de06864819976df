-- ===== src/Txn/Transaction/Commit/Logged.antt =====
-- What the commit record of a transaction leaves in the log (src/txn/transaction.rs over
-- src/wal/writer.rs).
use nanostore.Prelude.{ℕ, ◌≡◌, ◌∙◌, false, arith}
use nanostore.Prelude.Members.{member}
use nanostore.Vfs.{FileOps, IsFile}
use nanostore.Wal.Error.{WalResult}
use nanostore.Wal.Record.{commit}
use nanostore.Wal.Record.Frame.{Crates}
use nanostore.Wal.Reader.{track}
use nanostore.Wal.Writer.{WalWriterConfig, WalWriter, ◌then_lsn◌, write_commit, flush}
use nanostore.Wal.Writer.Steps.{Keeps-of_Flushes, flush-Flushes}
use nanostore.Wal.Writer.Active.{member-remove_txn}
use nanostore.Wal.Writer.Calls.{commit_txn, call, Added, Adds, kept-Adds, call-Adds}
use nanostore.Txn.Transaction.{
  Transaction, Durability, memory_only, wal_only, flush_on_commit, sync_on_commit,
}
use nanostore.Txn.Transaction.Commit.{CommitDraws, flush_after, commit_record}

module _ {ops : FileOps} (file : IsFile ops) (lib : Crates) (config : WalWriterConfig)
    (t : Transaction) (draws : CommitDraws) where
  -- What the commit record does to a log: where it succeeds, it adds the record of the commit.
  abbrev pub Commits : WalWriter ops → WalResult ℕ × WalWriter ops → Type 0
  Commits w (WalResult.err e, w') = Unit
  Commits w (WalResult.ok lsn, w') =
      (lsn ≡ w.current_lsn) × Added file lib config w w' (commit t.txn_id) draws.commit_draw

  -- The record takes the transaction off the table of active ones.
  pub ended_lem :
      (w w' : WalWriter ops)
      → Added file lib config w w' (commit t.txn_id) draws.commit_draw
      → member t.txn_id w'.active_txns ≡ false
  unfolding track
  ended_lem w w' a =
      a.tracked t.txn_id ∙ member-remove_txn t.txn_id t.txn_id w.active_txns ∙ ground arith

  Commits-of_Adds :
      (w : WalWriter ops) (r : WalResult ℕ × WalWriter ops)
      → Adds file lib config w (commit t.txn_id) draws.commit_draw r
      → Commits w r
  Commits-of_Adds w (WalResult.err e, w') a = tt
  Commits-of_Adds w (WalResult.ok lsn, w') a = a

  flush_after-Commits :
      (w : WalWriter ops) (r : WalResult ℕ × WalWriter ops)
      → Commits w r
      → Commits w (flush_after config r)
  flush_after-Commits w (WalResult.err e, w') c = tt
  flush_after-Commits w (WalResult.ok lsn, w') c =
      Commits-of_Adds w (flush config w' then_lsn λ w''. (WalResult.ok lsn, w'')) (
        kept-Adds file lib config w w' (commit t.txn_id) draws.commit_draw lsn (flush config w') c
          (Keeps-of_Flushes file w' (flush config w') (flush-Flushes file config w' c.1.at_end)))

  write_commit-Commits :
      (w : WalWriter ops)
      → file.AtEnd w.file
      → Commits w (write_commit lib config w t.txn_id draws.commit_draw)
  unfolding call
  write_commit-Commits w end =
      Commits-of_Adds w (write_commit lib config w t.txn_id draws.commit_draw)
        (call-Adds file lib config w (commit_txn t.txn_id) draws.commit_draw end)

  pick-Commits :
      (w : WalWriter ops) (d : Durability) (plain flushed : WalResult ℕ × WalWriter ops)
      → Commits w plain
      → Commits w flushed
      → Commits w (elim d [
        | memory_only ↦ plain
        | wal_only ↦ plain
        | flush_on_commit ↦ flushed
        | sync_on_commit ↦ plain
      ])
  pick-Commits w memory_only plain flushed p f = p
  pick-Commits w wal_only plain flushed p f = p
  pick-Commits w flush_on_commit plain flushed p f = f
  pick-Commits w sync_on_commit plain flushed p f = p

  pub commit_record-Commits :
      (w : WalWriter ops) → file.AtEnd w.file → Commits w (commit_record lib config t draws w)
  unfolding commit_record
  commit_record-Commits w end =
      let c = write_commit-Commits w end in
      let written = write_commit lib config w t.txn_id draws.commit_draw in
      pick-Commits w t.durability written (flush_after config written) c
        (flush_after-Commits w written c)
