-- ===== src/Txn/Transaction.antt =====
-- src/txn/transaction.rs: a transaction of reads, writes and deletes of keys, and its commit and
-- rollback. The table engines are a parameter; the write sets of the specialty tables (Bloom, graph,
-- time series, vector, spatial and text) stay empty, and their loops do nothing.
pub mod Commit
pub mod Writes
pub mod Reads
use nanostore.Prelude.{
  ℕ, ◌+◌, Bool, true, false, not, ◌||◌, Option, none, some, List, [], ◌∷◌, ◌++◌, ◌==◌,
  if◌then◌else◌,
}
use nanostore.Prelude.Bytes.{Bytes}
use nanostore.Prelude.Maps.{get, insert}
use nanostore.Prelude.Members.{member}
use nanostore.Vfs.{FileOps}
use nanostore.Wal.Error.{WalError, WalResult}
use nanostore.Wal.Record.{WriteOpType, put, delete}
use nanostore.Wal.Record.Frame.{Crates}
use nanostore.Wal.Writer.{
  WalWriterConfig, WalWriter, Status, Draw, write_begin, write_operation, write_prepare,
  write_commit, write_rollback, flush,
}
use nanostore.Txn.Conflict.{
  LockKey, lock_key_discrete, ConflictDetector, TransactionError, invalid_state, wal_failed,
  other_error, TransactionResult, lock_for_write, check_read_write_conflicts, release_locks,
}

pub data Result (A : Type 0) : Type 0 where
  ok : A → Result A
  err : TransactionError → Result A

-- `TransactionResult<()>`
abbrev pub Done : Type 0
Done = Result Unit

-- src/types.rs
pub data IsolationLevel : Type 0 where
  read_uncommitted read_committed repeatable_read serializable snapshot_isolation : IsolationLevel

pub data Durability : Type 0 where
  memory_only wal_only flush_on_commit sync_on_commit : Durability

pub data TransactionState : Type 0 where
  active preparing committed aborted : TransactionState

-- A change of a key: its new value, or none for a delete.
abbrev pub Change : Type 0
Change = LockKey × Option Bytes

pub data UndoOperation : Type 0 where
  restore_value : LockKey → (old_value : Option Bytes) → UndoOperation
  restore_key : LockKey → (old_value : Bytes) → UndoOperation

-- What a transaction asks of the registry of table engines, each call with the dispatch on the engine.
-- `old_value` is `none` where no engine has the table.
pub record Tables : Type 1 where
  pub State : Type 0
  pub lookup : State → LockKey → (snapshot_lsn : ℕ) → Result (Option Bytes)
  pub contains : State → LockKey → (snapshot_lsn : ℕ) → Result Bool
  pub old_value : State → LockKey → (snapshot_lsn : ℕ) → Result (Option (Option Bytes))
  pub apply : State → (txn_id snapshot_lsn : ℕ) → Change → Done × State
  pub execute_undo : State → (txn_id snapshot_lsn : ℕ) → UndoOperation → State
  pub commit_versions : State → (table_id txn_id commit_lsn : ℕ) → Done × State

pub record Transaction : Type 0 where
  pub txn_id : ℕ
  pub snapshot_lsn : ℕ
  pub isolation : IsolationLevel
  pub durability : Durability
  pub state : TransactionState
  pub read_set : List LockKey
  pub write_set : List Change

pub record CommitInfo : Type 0 where
  pub tx_id : ℕ
  pub commit_lsn : ℕ
  pub durable_lsn : Option ℕ

abbrev pub is_active : TransactionState → Bool
is_active active = true
is_active preparing = false
is_active committed = false
is_active aborted = false

-- the test at the start of `commit` and `rollback`
abbrev pub may_end : TransactionState → Bool
may_end active = true
may_end preparing = true
may_end committed = false
may_end aborted = false

-- `build`
abbrev pub build : ℕ → ℕ → IsolationLevel → Durability → Transaction
build txn_id snapshot_lsn isolation durability = record {
  txn_id = txn_id;
  snapshot_lsn = snapshot_lsn;
  isolation = isolation;
  durability = durability;
  state = active;
  read_set = [];
  write_set = [];
}

-- What the transactions share.
pub record Shared (tables : Tables) (ops : FileOps) : Type 0 where
  pub store : tables.State
  pub detector : ConflictDetector
  pub wal : WalWriter ops
  pub current_lsn : ℕ

-- `record_write` and `record_delete`
abbrev pub record_change : Transaction → Change → Transaction
record_change t (k, v) = record t { write_set = insert lock_key_discrete k v t.write_set }

-- `HashSet::insert` of the read set
unfoldable pub has_read : LockKey → List LockKey → Bool
has_read k [] = false
has_read k (j ∷ ks) = elim (lock_key_discrete j k) [ yes e ↦ true | no n ↦ has_read k ks ]

abbrev pub insert_read : LockKey → List LockKey → List LockKey
insert_read k ks = if has_read k ks then ks else k ∷ ks

unfoldable pub record_read : Transaction → LockKey → Transaction
record_read t k = elim t.isolation [
  | read_uncommitted ↦ t
  | read_committed ↦ t
  | repeatable_read ↦ record t { read_set = insert_read k t.read_set }
  | serializable ↦ record t { read_set = insert_read k t.read_set }
  | snapshot_isolation ↦ t
]

unfoldable pub prepare : Transaction → Result Transaction
prepare t =
    if is_active t.state then ok (record t { state = preparing }) else err (invalid_state t.txn_id)

module _ {tables : Tables} {ops : FileOps} where
  -- `get`: the transaction's own change, or the value in its snapshot
  unfoldable pub lookup : Transaction → Shared tables ops → LockKey → Result (Option Bytes)
  lookup t s k =
      if not (is_active t.state)
      then err (invalid_state t.txn_id)
      else elim (get lock_key_discrete k t.write_set) [
        | some value_opt ↦ ok value_opt
        | none ↦ tables.lookup s.store k t.snapshot_lsn
      ]

module _ {tables : Tables} {ops : FileOps} (lib : Crates) (config : WalWriterConfig) where
  -- `Transaction::new`, which ignores an error of the log
  unfoldable pub begin_transaction :
      Shared tables ops
      → ℕ
      → ℕ
      → IsolationLevel
      → Durability
      → Draw
      → Transaction × Shared tables ops
  unfolding write_begin
  begin_transaction s txn_id snapshot_lsn isolation durability draw = (
    build txn_id snapshot_lsn isolation durability,
    record s { wal = (write_begin lib config s.wal txn_id draw).1 },
  )

  -- the write set after the log has taken the change
  abbrev pub logged :
      Transaction
      → Shared tables ops
      → Change
      → WalResult ℕ × WalWriter ops
      → Done × Transaction × Shared tables ops
  logged t s c (WalResult.err e, wal) = (err (wal_failed e), t, record s { wal = wal })
  logged t s c (WalResult.ok lsn, wal) = (ok tt, record_change t c, record s { wal = wal })

  unfoldable pub log_change :
      Transaction → Shared tables ops → Change → Draw → Done × Transaction × Shared tables ops
  unfolding write_operation
  log_change t s (k, some value) draw =
      logged t s (k, some value) (write_operation lib config s.wal t.txn_id k.0 put k.1 value draw)
  log_change t s (k, none) draw =
      logged t s (k, none) (write_operation lib config s.wal t.txn_id k.0 delete k.1 [] draw)

  -- the rest of `put` after the lock was asked for
  abbrev pub put_locked :
      Transaction
      → Shared tables ops
      → LockKey
      → Bytes
      → Draw
      → TransactionResult × ConflictDetector
      → Done × Transaction × Shared tables ops
  put_locked t s k value draw (TransactionResult.err e, d) = (err e, t, record s { detector = d })
  put_locked t s k value draw (TransactionResult.ok, d) =
      log_change t (record s { detector = d }) (k, some value) draw

  -- `put`
  unfoldable pub put_key :
      Transaction
      → Shared tables ops
      → LockKey
      → Bytes
      → Draw
      → Done × Transaction × Shared tables ops
  unfolding log_change lock_for_write
  put_key t s k value draw =
      if not (is_active t.state)
      then (err (invalid_state t.txn_id), t, s)
      else put_locked t s k value draw (lock_for_write s.detector k t.txn_id)

  -- whether the key exists, in the write set or in the table
  abbrev pub existed : Transaction → Shared tables ops → LockKey → Result Bool
  existed t s k = elim (get lock_key_discrete k t.write_set) [
    | some change ↦ ok true
    | none ↦ tables.contains s.store k t.snapshot_lsn
  ]

  abbrev pub answer :
      Bool → Done × Transaction × Shared tables ops → Result Bool × Transaction × Shared tables ops
  answer b (err e, t, s) = (err e, t, s)
  answer b (ok u, t, s) = (ok b, t, s)

  -- the rest of `delete` with the answer of `existed`
  abbrev pub delete_found :
      Transaction
      → Shared tables ops
      → LockKey
      → Draw
      → Result Bool
      → Result Bool × Transaction × Shared tables ops
  delete_found t s k draw (err e) = (err e, t, s)
  delete_found t s k draw (ok b) = answer b (log_change t s (k, none) draw)

  abbrev pub delete_locked :
      Transaction
      → Shared tables ops
      → LockKey
      → Draw
      → TransactionResult × ConflictDetector
      → Result Bool × Transaction × Shared tables ops
  delete_locked t s k draw (TransactionResult.err e, d) = (err e, t, record s { detector = d })
  delete_locked t s k draw (TransactionResult.ok, d) =
      let s' = record s { detector = d } in delete_found t s' k draw (existed t s' k)

  -- `delete`
  unfoldable pub delete_key :
      Transaction
      → Shared tables ops
      → LockKey
      → Draw
      → Result Bool × Transaction × Shared tables ops
  unfolding log_change lock_for_write
  delete_key t s k draw =
      if not (is_active t.state)
      then (err (invalid_state t.txn_id), t, s)
      else delete_locked t s k draw (lock_for_write s.detector k t.txn_id)
