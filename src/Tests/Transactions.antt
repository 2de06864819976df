-- ===== src/Tests/Transactions.antt =====
-- A transaction (src/txn/transaction.rs) over a map of keys to values and a log in memory.
use mathlib.Core.Logic.{ite}
use nanostore.Prelude.{
  ◌≡◌, refl, Bool, true, false, Option, none, some, List, [], ◌∷◌, ◌==◌, if◌then◌else◌, dec_of_bool,
}
use nanostore.Prelude.Bytes.{Bytes, to_le, bytes_eq}
use nanostore.Prelude.Maps.{get, insert, remove}
use nanostore.Vfs.Memory.{memory_ops, create_file, write, put_bytes, resize, overwrite}
use nanostore.Vfs.Memory.Laws.{memory_file}
use nanostore.Wal.Error.{WalResult, transaction_not_found}
use nanostore.Wal.Record.{serialize_data}
use nanostore.Wal.Record.Frame.{to_bytes, compress, encrypt, frame}
use nanostore.Wal.Writer.{
  WalWriter, create, write_begin, write_operation, write_active, write_prepare, write_commit,
  write_end, commit_flush, write_record, append_encoded, append_bytes, flush, write_and_sync,
  remove_txn,
}
use nanostore.Txn.Conflict.{
  LockKey, ConflictDetector, lock_key_discrete, new, other_error, wal_failed, TransactionResult,
  lock_for_write, check_write_conflict, acquire_write_lock, check_read_write_conflicts,
}
use nanostore.Txn.Transaction.{
  ok, err, Done, serializable, sync_on_commit, Change, UndoOperation, restore_value, restore_key,
  may_end, Tables, Transaction, Shared, build, record_read, insert_read, begin_transaction, lookup,
  log_change, put_key,
}
use nanostore.Txn.Transaction.Reads.{
  change, lookup-change, Runs, begun, changed, check_isolation-Runs, checked, recorded,
}
use nanostore.Txn.Transaction.Commit.{
  CommitDraws, check_isolation, collect_undo, undo_of, apply_all, undo_all, commit_record,
  commit_transaction,
}
use nanostore.Txn.Transaction.Commit.Promise.{Verdict}
use nanostore.Txn.Transaction.Commit.Verdict.{commit-Verdict, commit-apply_failed}
use nanostore.Tests.Records.{plain}
use nanostore.Tests.Logs.{config, draw}

abbrev Store : Type 0
Store = List (LockKey × Bytes)

-- The table 99 refuses every change.
abbrev applied : Store → Change → Done × Store
applied store (k, some v) =
    if k.0 == 99 then (err other_error, store) else (ok tt, insert lock_key_discrete k v store)
applied store (k, none) =
    if k.0 == 99 then (err other_error, store) else (ok tt, remove lock_key_discrete k store)

abbrev undone : Store → UndoOperation → Store
undone store (restore_value k (some v)) = insert lock_key_discrete k v store
undone store (restore_value k none) = remove lock_key_discrete k store
undone store (restore_key k v) = insert lock_key_discrete k v store

abbrev held : Option Bytes → Bool
held none = false
held (some v) = true

abbrev tables : Tables
tables = record {
  State = Store;
  lookup = λ store k lsn. ok (get lock_key_discrete k store);
  contains = λ store k lsn. ok (held (get lock_key_discrete k store));
  old_value = λ store k lsn. ok (some (get lock_key_discrete k store));
  apply = λ store txn lsn c. applied store c;
  execute_undo = λ store txn lsn op. undone store op;
  commit_versions = λ store table txn lsn. (ok tt, store);
}

abbrev s₀ : Shared tables memory_ops
s₀ = record { store = []; detector = new; wal = create create_file; current_lsn = 0 }

abbrev t₁ : Transaction
t₁ = build 1 0 serializable sync_on_commit

abbrev s₁ : Shared tables memory_ops
s₁ = (begin_transaction plain config s₀ 1 0 serializable sync_on_commit draw).1

abbrev key : LockKey
key = (5, 1 ∷ 2 ∷ [])

abbrev t₂ : Transaction
t₂ = (change plain config t₁ s₁ (key, some (7 ∷ [])) draw).1

abbrev s₂ : Shared tables memory_ops
s₂ = (change plain config t₁ s₁ (key, some (7 ∷ [])) draw).2

t₂_lem : change plain config t₁ s₁ (key, some (7 ∷ [])) draw ≡ (ok tt, t₂, s₂)
unfolding change begin_transaction put_key log_change lock_for_write check_write_conflict
    acquire_write_lock write_begin write_operation write_active write_record append_encoded
    append_bytes flush write_and_sync to_bytes compress encrypt frame serialize_data to_le get
    insert
t₂_lem = refl

lookup-change_example :
    lookup t₂ s₂ key ≡ ite (lock_key_discrete key key) (ok (some (7 ∷ []))) (lookup t₁ s₁ key)
lookup-change_example = lookup-change plain config t₁ t₂ s₁ s₂ key key (some (7 ∷ [])) draw t₂_lem

-- A transaction that wrote a key and recorded a read of another.
abbrev other_key : LockKey
other_key = (5, 9 ∷ [])

abbrev t_read : Transaction
t_read = record_read t₂ other_key

runs : Runs tables memory_ops plain config (insert_read other_key []) t_read
runs =
    recorded other_key (
      changed s₁ s₂ (key, some (7 ∷ [])) draw (ok tt) (begun 1 0 serializable sync_on_commit)
        t₂_lem)

-- Another transaction holds the key that was read, and one that was not recorded.
abbrev others : ConflictDetector
others = record { write_locks = (other_key, 9) ∷ (key, 8) ∷ [] }

check_isolation-Runs_example :
    check_isolation t_read others
    ≡ checked t_read.isolation others (insert_read other_key []) t_read.txn_id
check_isolation-Runs_example =
    check_isolation-Runs tables memory_ops plain config (insert_read other_key []) t_read others
      runs

abbrev draws : CommitDraws
draws = record { prepare_draw = draw; commit_draw = draw; rollback_draw = draw }

at_end : memory_file.AtEnd s₂.wal.file
unfolding change begin_transaction put_key log_change lock_for_write check_write_conflict
    acquire_write_lock write_begin write_operation write_active write_record append_encoded
    append_bytes flush write_and_sync to_bytes compress encrypt frame serialize_data to_le get
    insert write put_bytes overwrite resize
at_end = refl

commit-Verdict_example :
    Verdict memory_file plain config t₂ draws s₂ (commit_transaction plain config t₂ draws s₂)
commit-Verdict_example = commit-Verdict memory_file plain config t₂ draws s₂ at_end

-- A put into the table that refuses changes, whose commit fails when it is applied.
abbrev bad : LockKey
bad = (99, 1 ∷ [])

abbrev t₃ : Transaction
t₃ = (change plain config t₁ s₁ (bad, some (7 ∷ [])) draw).1

abbrev s₃ : Shared tables memory_ops
s₃ = (change plain config t₁ s₁ (bad, some (7 ∷ [])) draw).2

abbrev w₁ : WalWriter memory_ops
w₁ = (write_prepare plain config s₃.wal t₃.txn_id draw).1

abbrev w₂ : WalWriter memory_ops
w₂ = (commit_record plain config t₃ draws w₁).1

bad_may : may_end t₃.state ≡ true
unfolding change begin_transaction put_key log_change lock_for_write check_write_conflict
    acquire_write_lock write_begin write_operation write_active write_record append_encoded
    append_bytes flush write_and_sync to_bytes compress encrypt frame serialize_data to_le get
    insert write put_bytes overwrite resize
bad_may = refl

bad_at_end : memory_file.AtEnd s₃.wal.file
unfolding change begin_transaction put_key log_change lock_for_write check_write_conflict
    acquire_write_lock write_begin write_operation write_active write_record append_encoded
    append_bytes flush write_and_sync to_bytes compress encrypt frame serialize_data to_le get
    insert write put_bytes overwrite resize
bad_at_end = refl

bad_undo : collect_undo tables t₃ s₃.store t₃.write_set ≡ ok (restore_value bad none ∷ [])
unfolding change begin_transaction put_key log_change lock_for_write check_write_conflict
    acquire_write_lock write_begin write_operation write_active write_record append_encoded
    append_bytes flush write_and_sync to_bytes compress encrypt frame serialize_data to_le get
    insert write put_bytes overwrite resize collect_undo undo_of bytes_eq lock_key_discrete
    dec_of_bool
bad_undo = refl

bad_prepared : write_prepare plain config s₃.wal t₃.txn_id draws.prepare_draw ≡ (WalResult.ok 3, w₁)
unfolding change begin_transaction put_key log_change lock_for_write check_write_conflict
    acquire_write_lock write_begin write_operation write_active write_record append_encoded
    append_bytes flush write_and_sync to_bytes compress encrypt frame serialize_data to_le get
    insert write put_bytes overwrite resize write_prepare
bad_prepared = refl

bad_checked : check_isolation t₃ s₃.detector ≡ TransactionResult.ok
unfolding change begin_transaction put_key log_change lock_for_write check_write_conflict
    acquire_write_lock write_begin write_operation write_active write_record append_encoded
    append_bytes flush write_and_sync to_bytes compress encrypt frame serialize_data to_le get
    insert write put_bytes overwrite resize check_isolation check_read_write_conflicts
bad_checked = refl

bad_committed : commit_record plain config t₃ draws w₁ ≡ (WalResult.ok 4, w₂)
unfolding change begin_transaction put_key log_change lock_for_write check_write_conflict
    acquire_write_lock write_begin write_operation write_active write_record append_encoded
    append_bytes flush write_and_sync to_bytes compress encrypt frame serialize_data to_le get
    insert write put_bytes overwrite resize write_prepare commit_record write_commit write_end
    commit_flush remove_txn
bad_committed = refl

bad_applied : apply_all tables t₃ t₃.write_set s₃.store ≡ (err other_error, [])
unfolding change begin_transaction put_key log_change lock_for_write check_write_conflict
    acquire_write_lock write_begin write_operation write_active write_record append_encoded
    append_bytes flush write_and_sync to_bytes compress encrypt frame serialize_data to_le get
    insert write put_bytes overwrite resize apply_all
bad_applied = refl

commit-apply_failed_example : commit_transaction plain config t₃ draws s₃ ≡ (
  err (wal_failed (transaction_not_found t₃.txn_id)),
  record s₃ { store = undo_all tables t₃ (restore_value bad none ∷ []) []; wal = w₂ },
)
commit-apply_failed_example =
    commit-apply_failed memory_file plain config t₃ draws s₃ (restore_value bad none ∷ []) 3 4 w₁ w₂
      other_error [] bad_at_end bad_may bad_undo bad_prepared bad_checked bad_committed bad_applied
