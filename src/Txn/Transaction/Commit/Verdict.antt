-- ===== src/Txn/Transaction/Commit/Verdict.antt =====
-- What `commit` of src/txn/transaction.rs leaves behind on each of its paths.
use mathlib.Core.Path.{subst}
use nanostore.Prelude.{◌∙◌, ℕ, ◌+◌, ◌≡◌, refl, ap, true, false, inl, inr, List, Bool-cases}
use nanostore.Prelude.Members.{member}
use nanostore.Vfs.{FileOps, IsFile}
use nanostore.Wal.Error.{WalResult, transaction_not_found}
use nanostore.Wal.Record.{commit, prepare}
use nanostore.Wal.Record.Frame.{Crates}
use nanostore.Wal.Writer.{
  WalWriterConfig, WalWriter, Draw, write_prepare, write_end, write_rollback,
}
use nanostore.Wal.Writer.Calls.{prepare_txn, call, Added, Adds, call-Adds}
use nanostore.Txn.Conflict.{TransactionError, wal_failed, TransactionResult, release_locks}
use nanostore.Txn.Transaction.{
  Result, ok, err, Done, Tables, Transaction, UndoOperation, may_end, Shared,
}
use nanostore.Txn.Transaction.Commit.{
  CommitDraws, collect_undo, check_isolation, modified_tables, apply_all, undo_all, commit_tables,
  commit_record, after_versions, after_apply, after_commit, after_check, after_prepare, after_undo,
  commit_transaction,
}
use nanostore.Txn.Transaction.Commit.Logged.{Commits, ended_lem, commit_record-Commits}
use nanostore.Txn.Transaction.Commit.Applied.{
  Applied, Published, Applies, Publishes, apply_all-Applies, commit_tables-Publishes,
}
use nanostore.Txn.Transaction.Commit.Promise.{Verdict}

module _ {tables : Tables} {ops : FileOps} (file : IsFile ops) (lib : Crates)
    (config : WalWriterConfig) (t : Transaction) (draws : CommitDraws) (s : Shared tables ops) where
  -- On the way the locks and the LSN stay.
  record Untouched (s' : Shared tables ops) : Type 0 where
    same_detector : s'.detector ≡ s.detector
    same_lsn : s'.current_lsn ≡ s.current_lsn

  -- Behind the prepare record.
  record Prepared (s' : Shared tables ops) : Type 0 where
    untouched : Untouched s'
    same_store : s'.store ≡ s.store
    prepared : Added file lib config s.wal s'.wal (prepare t.txn_id) draws.prepare_draw

  -- Behind the commit record, which removed the transaction from the log's table.
  record Logged (lsn : ℕ) (s' : Shared tables ops) : Type 0 where
    untouched : Untouched s'
    numbered : lsn ≡ s.wal.current_lsn + 1
    between : WalWriter ops
    prepared : Added file lib config s.wal between (prepare t.txn_id) draws.prepare_draw
    logged : Added file lib config between s'.wal (commit t.txn_id) draws.commit_draw

  ended :
      (lsn : ℕ) (s' : Shared tables ops)
      → Logged lsn s'
      → member t.txn_id s'.wal.active_txns ≡ false
  ended lsn s' l = ended_lem file lib config t draws l.between s'.wal l.logged

  after_versions-Verdict :
      (lsn : ℕ) (s' : Shared tables ops) (r : Done × tables.State)
      → Logged lsn s'
      → Applied tables t t.write_set s.store s'.store
      → Publishes tables t lsn (modified_tables t.write_set) s'.store r
      → Verdict file lib config t draws s (after_versions lib config t draws lsn s' r)
  after_versions-Verdict lsn s' (err e, store) l a p =
      (l.untouched.same_detector, l.untouched.same_lsn)
  after_versions-Verdict lsn s' (ok u, store) l a p = record {
    between = l.between;
    prepared = l.prepared;
    logged = l.logged;
    ended = ended lsn s' l;
    changed = s'.store;
    applied = a;
    published =
        subst (λ n. Published tables t n (modified_tables t.write_set) s'.store store) l.numbered p;
    released = ap (λ d. release_locks d t.txn_id) l.untouched.same_detector;
    lsn_now = l.numbered;
    lsn_returned = l.numbered;
    id_returned = refl;
  }

  -- The rollback record of a transaction that the log no longer knows is refused.
  write_rollback-ended :
      (w : WalWriter ops) (draw : Draw)
      → member t.txn_id w.active_txns ≡ false
      → write_rollback lib config w t.txn_id draw
        ≡ (WalResult.err (transaction_not_found t.txn_id), w)
  unfolding write_rollback write_end
  write_rollback-ended w draw ended = rw ended refl

  after_apply-Verdict :
      (undo_log : List UndoOperation) (lsn : ℕ) (s' : Shared tables ops) (r : Done × tables.State)
      → Logged lsn s'
      → Applies tables t t.write_set s.store r
      → Verdict file lib config t draws s (after_apply lib config t draws undo_log lsn s' r)
  after_apply-Verdict undo_log lsn s' (err e, store) l a =
      rw (write_rollback-ended s'.wal draws.rollback_draw (ended lsn s' l))
        (l.untouched.same_detector, l.untouched.same_lsn)
  after_apply-Verdict undo_log lsn s' (ok u, store) l a =
      after_versions-Verdict lsn (record s' { store = store })
        (commit_tables tables t lsn (modified_tables t.write_set) store)
        (record {
          untouched = record {
            same_detector = l.untouched.same_detector;
            same_lsn = l.untouched.same_lsn;
          };
          numbered = l.numbered;
          between = l.between;
          prepared = l.prepared;
          logged = l.logged;
        })
        a (commit_tables-Publishes tables t lsn (modified_tables t.write_set) store)

  after_commit-Verdict :
      (undo_log : List UndoOperation) (s' : Shared tables ops) (r : WalResult ℕ × WalWriter ops)
      → Prepared s'
      → Commits file lib config t draws s'.wal r
      → Verdict file lib config t draws s (after_commit lib config t draws undo_log s' r)
  after_commit-Verdict undo_log s' (WalResult.err e, wal) u c =
      (u.untouched.same_detector, u.untouched.same_lsn)
  after_commit-Verdict undo_log s' (WalResult.ok lsn, wal) u c =
      after_apply-Verdict undo_log lsn (record s' { wal = wal })
        (apply_all tables t t.write_set s'.store)
        (record {
          untouched = record {
            same_detector = u.untouched.same_detector;
            same_lsn = u.untouched.same_lsn;
          };
          numbered = c.0 ∙ u.prepared.next_lsn;
          between = s'.wal;
          prepared = u.prepared;
          logged = c.1;
        })
        (subst
          (λ store. Applies tables t t.write_set store (apply_all tables t t.write_set s'.store))
          u.same_store (apply_all-Applies tables t t.write_set s'.store))

  after_check-Verdict :
      (undo_log : List UndoOperation) (s' : Shared tables ops) (r : TransactionResult)
      → Prepared s'
      → Verdict file lib config t draws s (after_check lib config t draws undo_log s' r)
  after_check-Verdict undo_log s' (TransactionResult.err e) u =
      (u.untouched.same_detector, u.untouched.same_lsn)
  after_check-Verdict undo_log s' TransactionResult.ok u =
      after_commit-Verdict undo_log s' (commit_record lib config t draws s'.wal) u
        (commit_record-Commits file lib config t draws s'.wal u.prepared.at_end)

  after_prepare-Verdict :
      (undo_log : List UndoOperation) (r : WalResult ℕ × WalWriter ops)
      → Adds file lib config s.wal (prepare t.txn_id) draws.prepare_draw r
      → Verdict file lib config t draws s (after_prepare lib config t draws undo_log s r)
  after_prepare-Verdict undo_log (WalResult.err e, wal) a = (refl, refl)
  after_prepare-Verdict undo_log (WalResult.ok lsn, wal) (e, a) =
      after_check-Verdict undo_log (record s { wal = wal }) (check_isolation t s.detector)
        (record {
          untouched = record { same_detector = refl; same_lsn = refl };
          same_store = refl;
          prepared = a;
        })

  after_undo-Verdict :
      (r : Result (List UndoOperation))
      → file.AtEnd s.wal.file
      → Verdict file lib config t draws s (after_undo lib config t draws s r)
  unfolding call
  after_undo-Verdict (err e) end = (refl, refl)
  after_undo-Verdict (ok undo_log) end =
      after_prepare-Verdict undo_log (write_prepare lib config s.wal t.txn_id draws.prepare_draw)
        (call-Adds file lib config s.wal (prepare_txn t.txn_id) draws.prepare_draw end)

  -- With the log's cursor at its end: a commit that succeeds has added exactly a prepare record and
  -- then a commit record of the transaction to the log, under the next two LSNs; has applied every
  -- change of the write set, in its order, to the tables, and then made the versions of each changed
  -- table visible from the second LSN on; returns that LSN and makes it the current one; has taken the
  -- transaction off the log's table of active ones; and releases all its locks. A commit that fails, at
  -- whichever step, releases no lock and leaves the current LSN as it was.
  pub commit-Verdict :
      file.AtEnd s.wal.file
      → Verdict file lib config t draws s (commit_transaction lib config t draws s)
  unfolding commit_transaction
  commit-Verdict end = elim (Bool-cases (may_end t.state)) [
    | inl may ↦ rw may (after_undo-Verdict (collect_undo tables t s.store t.write_set) end)
    | inr ended ↦ rw ended (refl, refl)
  ]

  -- With the log's cursor at its end: where the commit record was written and a change could then not
  -- be applied to its table, the commit does not return that error but that the log does not know the
  -- transaction, since the commit record has removed it; no rollback record is written, so that the log
  -- keeps the transaction as committed although the applied changes were undone, and no lock is
  -- released.
  pub commit-apply_failed :
      (undo_log : List UndoOperation) (p c : ℕ) (w₁ w₂ : WalWriter ops) (e : TransactionError)
      (store : tables.State)
      → file.AtEnd s.wal.file
      → may_end t.state ≡ true
      → collect_undo tables t s.store t.write_set ≡ ok undo_log
      → write_prepare lib config s.wal t.txn_id draws.prepare_draw ≡ (WalResult.ok p, w₁)
      → check_isolation t s.detector ≡ TransactionResult.ok
      → commit_record lib config t draws w₁ ≡ (WalResult.ok c, w₂)
      → apply_all tables t t.write_set s.store ≡ (err e, store)
      → commit_transaction lib config t draws s ≡ (
        err (wal_failed (transaction_not_found t.txn_id)),
        record s { store = undo_all tables t undo_log store; wal = w₂ },
      )
  unfolding commit_transaction call
  commit-apply_failed undo_log p c w₁ w₂ e store end may undo prepared checked committed failed =
      let (_, a) =
        subst (Adds file lib config s.wal (prepare t.txn_id) draws.prepare_draw) prepared
          (call-Adds file lib config s.wal (prepare_txn t.txn_id) draws.prepare_draw end) in
      let (_, added) =
        subst (Commits file lib config t draws w₁) committed
          (commit_record-Commits file lib config t draws w₁ a.at_end) in
      let ended = ended_lem file lib config t draws w₁ w₂ added in
      rw
        (
          may,
          undo,
          prepared,
          checked,
          committed,
          failed,
          write_rollback-ended w₂ draws.rollback_draw ended,
        )
        refl
