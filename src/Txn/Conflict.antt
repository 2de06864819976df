-- ===== src/Txn/Conflict.antt =====
-- src/txn/conflict.rs: write locks and the conflicts between transactions.
pub mod Locks
use mathlib.Core.Bool.{not, ◌&&◌}
use nanostore.Prelude.{
  ℕ, Bool, true, false, Option, none, some, List, [], ◌∷◌, ◌≡◌, ◌==◌, if◌then◌else◌, arith,
  dec_of_bool,
}
use nanostore.Prelude.Bytes.{Bytes, bytes_eq, bytes_eq_sound, bytes_eq_refl}
use nanostore.Prelude.Maps.{get, insert, retain}
use nanostore.Wal.Error.{WalError}

-- `(TableId, Vec<u8>)`
abbrev pub LockKey : Type 0
LockKey = ℕ × Bytes

pub lock_key_sound : (a b : LockKey) → ((a.0 == b.0) && bytes_eq a.1 b.1) ≡ true → a ≡ b
lock_key_sound (i, k) (j, l) h = ground (arith, bytes_eq_sound k l)

pub lock_key_complete : (a b : LockKey) → a ≡ b → ((a.0 == b.0) && bytes_eq a.1 b.1) ≡ true
lock_key_complete (i, k) (j, l) h = ground (arith, bytes_eq_refl k)

unfoldable pub lock_key_discrete : Discrete LockKey
unfolding dec_of_bool bytes_eq
lock_key_discrete a b =
    dec_of_bool ((a.0 == b.0) && bytes_eq a.1 b.1) (lock_key_sound a b) (lock_key_complete a b)

pub data ConflictType : Type 0 where
  write_write read_write serialization : ConflictType

-- src/txn/error.rs: the errors that the modelled code returns. `other_error` has a message only; where that
-- is about the log, `wal_failed` keeps the error of the log.
pub data TransactionError : Type 0 where
  invalid_state : (transaction_id : ℕ) → TransactionError
  wal_failed : WalError → TransactionError
  other_error : TransactionError
  write_write_conflict : (object_id : ℕ) (key : Bytes) (holder requester : ℕ) → TransactionError
  read_write_conflict : (object_id : ℕ) (key : Bytes) (reader writer : ℕ) → TransactionError

pub data TransactionResult : Type 0 where
  ok : TransactionResult
  err : TransactionError → TransactionResult

pub record ConflictDetector : Type 0 where
  pub write_locks : List (LockKey × ℕ)

abbrev pub new : ConflictDetector
new = record { write_locks = [] }

-- `write_locks.get(&lock_key)`
abbrev pub holder : ConflictDetector → LockKey → Option ℕ
holder d k = get lock_key_discrete k d.write_locks

unfoldable pub check_write_conflict : ConflictDetector → LockKey → ℕ → TransactionResult
check_write_conflict d k txn_id = elim (holder d k) [
  | none ↦ ok
  | some other ↦ if other == txn_id then ok else err (write_write_conflict k.0 k.1 other txn_id)
]

unfoldable pub acquire_write_lock : ConflictDetector → LockKey → ℕ → ConflictDetector
acquire_write_lock d k txn_id = record {
  write_locks = insert lock_key_discrete k txn_id d.write_locks;
}

unfoldable pub release_locks : ConflictDetector → ℕ → ConflictDetector
release_locks d txn_id = record {
  write_locks = retain lock_key_discrete (λ h. not (h == txn_id)) d.write_locks;
}

-- The loop over the read set, whose order is not specified.
unfoldable pub check_read_write_conflicts : ConflictDetector → List LockKey → ℕ → TransactionResult
check_read_write_conflicts d [] txn_id = ok
check_read_write_conflicts d (k ∷ ks) txn_id = elim (holder d k) [
  | none ↦ check_read_write_conflicts d ks txn_id
  | some other ↦
      if other == txn_id
      then check_read_write_conflicts d ks txn_id
      else err (read_write_conflict k.0 k.1 txn_id other)
]

-- `put` and `delete` of src/txn/transaction.rs under the detector's mutex: the check, and the lock
-- if it passes.
unfoldable pub lock_for_write :
    ConflictDetector → LockKey → ℕ → TransactionResult × ConflictDetector
unfolding check_write_conflict acquire_write_lock
lock_for_write d k txn_id = elim (check_write_conflict d k txn_id) [
  | ok ↦ (ok, acquire_write_lock d k txn_id)
  | err e ↦ (err e, d)
]
