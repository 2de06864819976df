-- ===== src/Txn/Transaction/Commit/Promise.antt =====
-- What `commit` of src/txn/transaction.rs promises: on success, and on failure.
use nanostore.Prelude.{◌+◌, ◌≡◌, false}
use nanostore.Prelude.Members.{member}
use nanostore.Vfs.{FileOps, IsFile}
use nanostore.Wal.Record.{commit, prepare}
use nanostore.Wal.Record.Frame.{Crates}
use nanostore.Wal.Writer.{WalWriterConfig, WalWriter}
use nanostore.Wal.Writer.Calls.{Added}
use nanostore.Txn.Conflict.{release_locks}
use nanostore.Txn.Transaction.{ok, err, Tables, Transaction, CommitInfo, Shared}
use nanostore.Txn.Transaction.Commit.{CommitDraws, Answer, modified_tables}
use nanostore.Txn.Transaction.Commit.Applied.{Applied, Published}

-- A commit that succeeded: the log has taken the prepare and the commit record of the transaction,
-- one after the other; each change of the write set was applied, and then the versions of each table
-- made visible from the LSN of the commit record on; that LSN is current, and the locks are free.
pub record Committed {tables : Tables} {ops : FileOps} (file : IsFile ops) (lib : Crates)
    (config : WalWriterConfig) (t : Transaction) (draws : CommitDraws) (s s' : Shared tables ops)
    (info : CommitInfo) : Type 0 where
  pub between : WalWriter ops
  pub prepared : Added file lib config s.wal between (prepare t.txn_id) draws.prepare_draw
  pub logged : Added file lib config between s'.wal (commit t.txn_id) draws.commit_draw
  pub ended : member t.txn_id s'.wal.active_txns ≡ false
  pub changed : tables.State
  pub applied : Applied tables t t.write_set s.store changed
  pub published :
      Published tables t (s.wal.current_lsn + 1) (modified_tables t.write_set) changed s'.store
  pub released : s'.detector ≡ release_locks s.detector t.txn_id
  pub lsn_now : s'.current_lsn ≡ s.wal.current_lsn + 1
  pub lsn_returned : info.commit_lsn ≡ s.wal.current_lsn + 1
  pub id_returned : info.tx_id ≡ t.txn_id

-- Success is as above; failure leaves every lock and the current LSN as they were.
abbrev pub Verdict :
    {tables : Tables} {ops : FileOps}
    → IsFile ops
    → Crates
    → WalWriterConfig
    → Transaction
    → CommitDraws
    → Shared tables ops
    → Answer tables ops
    → Type 0
Verdict file lib config t draws s (err e, s') =
    (s'.detector ≡ s.detector) × (s'.current_lsn ≡ s.current_lsn)
Verdict file lib config t draws s (ok info, s') = Committed file lib config t draws s s' info
