-- ===== src/Wal/Recovery.antt =====
-- src/wal/recovery.rs: which writes a log restores. The reader is a parameter: a list of the records
-- that it returns. Warnings are printed only, and left out.
pub mod View
pub mod Panics
pub mod Result
pub mod Commit
use nanostore.Prelude.{
  ℕ, ◌+◌, ◌≡◌, refl, Bool, true, false, Option, none, some, List, [], ◌∷◌, ◌++◌, ◌==◌,
  if◌then◌else◌,
}
use nanostore.Prelude.{ℕ_discrete}
use nanostore.Prelude.Bytes.{Bytes}
use nanostore.Prelude.Maps.{get, remove, insert_sorted}
use nanostore.Wal.Error.{WalError, recovery_error, Operation}
use nanostore.Wal.Record.{
  WriteOpType, RecordData, begin, write, commit, rollback, checkpoint, prepare,
}

pub data TransactionState : Type 0 where
  active committed rolled_back : TransactionState

pub record RecoveredWrite : Type 0 where
  pub table_id : ℕ
  pub op_type : WriteOpType
  pub key : Bytes
  pub value : Bytes

pub record RecoveryResult : Type 0 where
  pub last_checkpoint_lsn : Option ℕ
  pub committed_writes : List RecoveredWrite
  pub active_transactions : List ℕ
  pub records_processed : ℕ

pub record WalRecovery : Type 0 where
  pub transactions : List (ℕ × TransactionState)
  pub transaction_writes : List (ℕ × List RecoveredWrite)
  pub last_checkpoint_lsn : Option ℕ
  pub checkpoint_active_txns : Option (List ℕ)
  pub records_processed : ℕ

-- A result, an error, or a panic (`unwrap` of `None`).
pub data Outcome (A : Type 0) : Type 0 where
  ok : A → Outcome A
  err : WalError → Outcome A
  panic : Outcome A

infixl 5 ◌>>=◌
abbrev pub ◌>>=◌ : {A B : Type 0} → Outcome A → (A → Outcome B) → Outcome B
ok a >>= f = f a
err e >>= f = err e
panic >>= f = panic

abbrev pub new : WalRecovery
new = record {
  transactions = [];
  transaction_writes = [];
  last_checkpoint_lsn = none;
  checkpoint_active_txns = none;
  records_processed = 0;
}

-- `self.transactions.get(&txn_id)`, and the same of the writes
abbrev pub state_of : ℕ → WalRecovery → Option TransactionState
state_of t s = get ℕ_discrete t s.transactions

abbrev pub writes_of : ℕ → WalRecovery → Option (List RecoveredWrite)
writes_of t s = get ℕ_discrete t s.transaction_writes

unfoldable pub process_begin : WalRecovery → ℕ → Outcome WalRecovery
process_begin s t = ok (record s {
  transactions = insert_sorted t active s.transactions;
  transaction_writes = insert_sorted t [] s.transaction_writes;
})

-- `get_mut(&txn_id).unwrap()` and the push
unfoldable pub push_write : WalRecovery → ℕ → RecoveredWrite → Outcome WalRecovery
push_write s t w = elim (writes_of t s) [
  | none ↦ panic
  | some writes ↦
      ok (record s {
        transaction_writes = insert_sorted t (writes ++ (w ∷ [])) s.transaction_writes;
      })
]

unfoldable pub process_write : WalRecovery → ℕ → RecoveredWrite → Outcome WalRecovery
unfolding push_write
process_write s t w = elim (state_of t s) [
  | none ↦ err (recovery_error 0 Operation.write)
  | some state ↦ push_write s t w
]

unfoldable pub process_commit : WalRecovery → ℕ → Outcome WalRecovery
process_commit s t = elim (state_of t s) [
  | none ↦ err (recovery_error 0 Operation.commit)
  | some state ↦ ok (record s { transactions = insert_sorted t committed s.transactions })
]

unfoldable pub process_rollback : WalRecovery → ℕ → Outcome WalRecovery
process_rollback s t = elim (state_of t s) [
  | none ↦ err (recovery_error 0 Operation.rollback)
  | some state ↦ ok (record s {
    transactions = insert_sorted t rolled_back s.transactions;
    transaction_writes = remove ℕ_discrete t s.transaction_writes;
  })
]

-- The comparison with the transactions that are active now only prints a warning.
unfoldable pub process_checkpoint : WalRecovery → ℕ → List ℕ → Outcome WalRecovery
process_checkpoint s lsn active_txns =
    ok (record s { last_checkpoint_lsn = some lsn; checkpoint_active_txns = some active_txns })

-- the `match` of `process_record`
unfoldable pub dispatch : WalRecovery → RecordData → Outcome WalRecovery
unfolding process_begin process_write process_commit process_rollback process_checkpoint
dispatch s (begin t) = process_begin s t
dispatch s (write t table_id op key value) =
    process_write s t (record { table_id = table_id; op_type = op; key = key; value = value })
dispatch s (commit t) = process_commit s t
dispatch s (rollback t) = process_rollback s t
dispatch s (checkpoint lsn active_txns) = process_checkpoint s lsn active_txns
dispatch s (prepare t) = process_begin s t

unfoldable pub process_record : WalRecovery → RecordData → Outcome WalRecovery
unfolding dispatch
process_record s r = dispatch (record s { records_processed = s.records_processed + 1 }) r

-- the loop of `recover_with_key`, over the records that the reader returns
unfoldable pub process_all : WalRecovery → List RecordData → Outcome WalRecovery
unfolding process_record
process_all s [] = ok s
process_all s (r ∷ rs) = do s' ← process_record s r; process_all s' rs

-- the loop of `build_result` over the transactions in the order of their identifiers
unfoldable pub collect_writes :
    List (ℕ × List RecoveredWrite) → List (ℕ × TransactionState) → List RecoveredWrite
collect_writes writes [] = []
collect_writes writes ((t, committed) ∷ rest) = elim (get ℕ_discrete t writes) [
  | none ↦ collect_writes writes rest
  | some ws ↦ ws ++ collect_writes writes rest
]
collect_writes writes ((t, active) ∷ rest) = collect_writes writes rest
collect_writes writes ((t, rolled_back) ∷ rest) = collect_writes writes rest

unfoldable pub collect_active : List (ℕ × TransactionState) → List ℕ
collect_active [] = []
collect_active ((t, active) ∷ rest) = t ∷ collect_active rest
collect_active ((t, committed) ∷ rest) = collect_active rest
collect_active ((t, rolled_back) ∷ rest) = collect_active rest

unfoldable pub build_result : WalRecovery → RecoveryResult
unfolding collect_writes collect_active
build_result s = record {
  last_checkpoint_lsn = s.last_checkpoint_lsn;
  committed_writes = collect_writes s.transaction_writes s.transactions;
  active_transactions = collect_active s.transactions;
  records_processed = s.records_processed;
}

unfoldable pub recover : List RecordData → Outcome RecoveryResult
unfolding process_all build_result
recover records = do s ← process_all new records; ok (build_result s)

pub >>=-eq-ok :
    {S T : Type 0} (first : Outcome S) (rest : S → Outcome T) {result : T}
    → (first >>= rest) ≡ ok result
    → (value : S) × (first ≡ ok value) × (rest value ≡ ok result)
>>=-eq-ok panic rest through = cc
>>=-eq-ok (err returned) rest through = cc
>>=-eq-ok (ok value) rest through = (value, refl, through)

pub bind_assoc :
    {A B C : Type 0} (m : Outcome A) (f : A → Outcome B) (g : B → Outcome C)
    → (m >>= λ a. f a >>= g) ≡ ((m >>= f) >>= g)
bind_assoc (ok a) f g = refl
bind_assoc (err e) f g = refl
bind_assoc panic f g = refl

pub ok-injective : {A : Type 0} {a b : A} → Outcome.ok a ≡ ok b → a ≡ b
ok-injective h = cc
