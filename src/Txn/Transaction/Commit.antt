-- ===== src/Txn/Transaction/Commit.antt =====
-- `commit` and `rollback` of src/txn/transaction.rs, each step as the rest of the function behind one
-- call that can fail. The specialty write sets are empty.
pub mod Applied
pub mod Logged
pub mod Promise
pub mod Verdict
use nanostore.Prelude.{ℕ, Bool, true, false, Option, none, some, List, [], ◌∷◌, ◌++◌, if◌then◌else◌}
use nanostore.Prelude.Bytes.{Bytes}
use nanostore.Prelude.Members.{member}
use nanostore.Vfs.{FileOps}
use nanostore.Wal.Error.{WalError, WalResult}
use nanostore.Wal.Record.Frame.{Crates}
use nanostore.Wal.Writer.{
  WalWriterConfig, WalWriter, Draw, insert_txn, ◌then_lsn◌, write_prepare, write_commit,
  write_rollback, flush,
}
use nanostore.Txn.Conflict.{
  LockKey, ConflictDetector, TransactionError, invalid_state, wal_failed, TransactionResult,
  check_read_write_conflicts, release_locks,
}
use nanostore.Txn.Transaction.{
  Result, ok, err, Done, IsolationLevel, read_uncommitted, read_committed, repeatable_read,
  serializable, snapshot_isolation, Durability, memory_only, wal_only, flush_on_commit,
  sync_on_commit, Change, UndoOperation, restore_value, restore_key, Tables, Transaction,
  CommitInfo, may_end, Shared,
}

-- What is drawn for the records of a commit.
pub record CommitDraws : Type 0 where
  pub prepare_draw : Draw
  pub commit_draw : Draw
  pub rollback_draw : Draw

-- the undo operation of a change, from the value before it
unfoldable pub undo_of : LockKey → Option Bytes → Option (Option Bytes) → List UndoOperation
undo_of k change none = []
undo_of k (some value) (some old_value) = restore_value k old_value ∷ []
undo_of k none (some (some old_val)) = restore_key k old_val ∷ []
undo_of k none (some none) = []

-- `?` on the value before a change
abbrev pub undo_after :
    LockKey
    → Option Bytes
    → Result (Option (Option Bytes))
    → Result (List UndoOperation)
    → Result (List UndoOperation)
undo_after k change (err e) rest = err e
undo_after k change (ok old) (err e) = err e
undo_after k change (ok old) (ok ops) = ok (undo_of k change old ++ ops)

-- the check of Phase 2 for the isolation level
unfoldable pub check_isolation : Transaction → ConflictDetector → TransactionResult
unfolding check_read_write_conflicts
check_isolation t d = elim t.isolation [
  | read_uncommitted ↦ TransactionResult.ok
  | read_committed ↦ TransactionResult.ok
  | repeatable_read ↦ check_read_write_conflicts d t.read_set t.txn_id
  | serializable ↦ check_read_write_conflicts d t.read_set t.txn_id
  | snapshot_isolation ↦ TransactionResult.ok
]

-- the tables of the write set
unfoldable pub modified_tables : List Change → List ℕ
modified_tables [] = []
modified_tables ((k, v) ∷ cs) = insert_txn k.0 (modified_tables cs)

-- `?` in a loop over the tables
abbrev pub go_on : {S : Type 0} → Done × S → (S → Done × S) → Done × S
go_on (err e, store) rest = (err e, store)
go_on (ok u, store) rest = rest store

-- what `commit` returns, and what it leaves
abbrev pub Answer : Tables → FileOps → Type 0
Answer tables ops = Result CommitInfo × Shared tables ops

module _ (tables : Tables) (t : Transaction) where
  -- the loop that collects the undo log
  unfoldable pub collect_undo : tables.State → List Change → Result (List UndoOperation)
  unfolding undo_of
  collect_undo store [] = ok []
  collect_undo store ((k, v) ∷ cs) =
      undo_after k v (tables.old_value store k t.snapshot_lsn) (collect_undo store cs)

  -- the loop of `apply_all_changes` over the write set
  unfoldable pub apply_all : List Change → tables.State → Done × tables.State
  apply_all [] store = (ok tt, store)
  apply_all (c ∷ cs) store = go_on (tables.apply store t.txn_id t.snapshot_lsn c) (apply_all cs)

  -- the undo operations in reverse
  unfoldable pub undo_all : List UndoOperation → tables.State → tables.State
  undo_all [] store = store
  undo_all (op ∷ ops) store =
      let later = undo_all ops store in tables.execute_undo later t.txn_id t.snapshot_lsn op

  -- `commit_versions` on the modified tables
  unfoldable pub commit_tables : ℕ → List ℕ → tables.State → Done × tables.State
  commit_tables lsn [] store = (ok tt, store)
  commit_tables lsn (i ∷ is) store =
      go_on (tables.commit_versions store i t.txn_id lsn) (commit_tables lsn is)

module _ {ops : FileOps} (config : WalWriterConfig) where
  -- the flush that `FlushOnCommit` adds
  abbrev pub flush_after : WalResult ℕ × WalWriter ops → WalResult ℕ × WalWriter ops
  flush_after (WalResult.err e, wal) = (WalResult.err e, wal)
  flush_after (WalResult.ok lsn, wal) = flush config wal then_lsn λ wal'. (WalResult.ok lsn, wal')

module _ {ops : FileOps} (lib : Crates) (config : WalWriterConfig) (t : Transaction)
    (draws : CommitDraws) where
  -- `match self.durability`
  unfoldable pub commit_record : WalWriter ops → WalResult ℕ × WalWriter ops
  unfolding write_commit flush
  commit_record wal = elim t.durability [
    | memory_only ↦ write_commit lib config wal t.txn_id draws.commit_draw
    | wal_only ↦ write_commit lib config wal t.txn_id draws.commit_draw
    | flush_on_commit ↦ flush_after config (write_commit lib config wal t.txn_id draws.commit_draw)
    | sync_on_commit ↦ write_commit lib config wal t.txn_id draws.commit_draw
  ]

module _ {tables : Tables} {ops : FileOps} (lib : Crates) (config : WalWriterConfig)
    (t : Transaction) (draws : CommitDraws) where
  -- the end of `commit`
  abbrev pub after_versions : ℕ → Shared tables ops → Done × tables.State → Answer tables ops
  after_versions lsn s (err e, store) = (err e, record s { store = store })
  after_versions lsn s (ok u, store) = (
    ok (record { tx_id = t.txn_id; commit_lsn = lsn; durable_lsn = some lsn }),
    record s { store = store; current_lsn = lsn; detector = release_locks s.detector t.txn_id },
  )

  -- after the undo: the rollback record, and the locks
  abbrev pub after_rollback :
      TransactionError → Shared tables ops → WalResult ℕ × WalWriter ops → Answer tables ops
  after_rollback failure s (WalResult.err e, wal) = (err (wal_failed e), record s { wal = wal })
  after_rollback failure s (WalResult.ok lsn, wal) =
      (err failure, record s { wal = wal; detector = release_locks s.detector t.txn_id })

  -- after `apply_all_changes`
  abbrev pub after_apply :
      List UndoOperation → ℕ → Shared tables ops → Done × tables.State → Answer tables ops
  after_apply undo_log lsn s (err e, store) =
      after_rollback e (record s { store = undo_all tables t undo_log store })
        (write_rollback lib config s.wal t.txn_id draws.rollback_draw)
  after_apply undo_log lsn s (ok u, store) =
      after_versions lsn (record s { store = store })
        (commit_tables tables t lsn (modified_tables t.write_set) store)

  -- after the commit record
  abbrev pub after_commit :
      List UndoOperation → Shared tables ops → WalResult ℕ × WalWriter ops → Answer tables ops
  after_commit undo_log s (WalResult.err e, wal) = (err (wal_failed e), record s { wal = wal })
  after_commit undo_log s (WalResult.ok lsn, wal) =
      after_apply undo_log lsn (record s { wal = wal }) (apply_all tables t t.write_set s.store)

  -- after the check for conflicts
  abbrev pub after_check :
      List UndoOperation → Shared tables ops → TransactionResult → Answer tables ops
  after_check undo_log s (TransactionResult.err e) = (err e, s)
  after_check undo_log s TransactionResult.ok =
      after_commit undo_log s (commit_record lib config t draws s.wal)

  -- after the prepare record
  abbrev pub after_prepare :
      List UndoOperation → Shared tables ops → WalResult ℕ × WalWriter ops → Answer tables ops
  after_prepare undo_log s (WalResult.err e, wal) = (err (wal_failed e), record s { wal = wal })
  after_prepare undo_log s (WalResult.ok lsn, wal) =
      after_check undo_log (record s { wal = wal }) (check_isolation t s.detector)

  -- after the undo log was collected
  abbrev pub after_undo : Shared tables ops → Result (List UndoOperation) → Answer tables ops
  after_undo s (err e) = (err e, s)
  after_undo s (ok undo_log) =
      after_prepare undo_log s (write_prepare lib config s.wal t.txn_id draws.prepare_draw)

  -- `commit`
  unfoldable pub commit_transaction : Shared tables ops → Answer tables ops
  unfolding collect_undo check_isolation commit_record apply_all undo_all commit_tables
      write_prepare write_rollback release_locks modified_tables
  commit_transaction s =
      if may_end t.state
      then after_undo s (collect_undo tables t s.store t.write_set)
      else (err (invalid_state t.txn_id), s)

module _ {tables : Tables} {ops : FileOps} (lib : Crates) (config : WalWriterConfig)
    (t : Transaction) where
  -- after the rollback record
  abbrev pub rolled_back :
      Shared tables ops → WalResult ℕ × WalWriter ops → Done × Shared tables ops
  rolled_back s (WalResult.err e, wal) = (err (wal_failed e), record s { wal = wal })
  rolled_back s (WalResult.ok lsn, wal) =
      (ok tt, record s { wal = wal; detector = release_locks s.detector t.txn_id })

  unfoldable pub rollback_transaction : Shared tables ops → Draw → Done × Shared tables ops
  unfolding write_rollback release_locks
  rollback_transaction s draw =
      if may_end t.state
      then rolled_back s (write_rollback lib config s.wal t.txn_id draw)
      else (err (invalid_state t.txn_id), s)
