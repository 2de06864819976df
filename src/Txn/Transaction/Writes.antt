-- ===== src/Txn/Transaction/Writes.antt =====
-- What a transaction (src/txn/transaction.rs) reads of its own changes, and what it remembers of its
-- reads.
use nanostore.Prelude.{ℕ, ◌≡◌, refl, Bool, true, none, some, inl, inr, Bool-cases}
use nanostore.Prelude.Bytes.{Bytes}
use nanostore.Vfs.{FileOps}
use nanostore.Wal.Error.{WalResult}
use nanostore.Wal.Record.Frame.{Crates}
use nanostore.Wal.Writer.{WalWriterConfig, WalWriter, Draw}
use nanostore.Txn.Conflict.{LockKey, ConflictDetector, TransactionResult, lock_for_write}
use nanostore.Txn.Transaction.{
  Result, ok, err, Done, Change, Tables, Transaction, Shared, is_active, record_change, logged,
  log_change, put_locked, put_key, existed, answer, delete_found, delete_locked, delete_key,
}

-- The change was recorded, and of the rest only the log and the locks may differ.
pub record Changed {tables : Tables} {ops : FileOps} (t t' : Transaction) (s s' : Shared tables ops)
    (c : Change) : Type 0 where
  pub recorded : t' ≡ record_change t c
  pub same_store : s'.store ≡ s.store

-- A call that changes a key does so, or leaves the transaction.
abbrev Changes :
    {A : Type 0} {tables : Tables} {ops : FileOps}
    → Transaction
    → Shared tables ops
    → Change
    → Result A × Transaction × Shared tables ops
    → Type 0
Changes t s c (err e, t', s') = t' ≡ t
Changes t s c (ok a, t', s') = Changed t t' s s' c

-- The same, where only an active transaction changes keys.
abbrev pub ActiveChanges :
    {A : Type 0} {tables : Tables} {ops : FileOps}
    → Transaction
    → Shared tables ops
    → Change
    → Result A × Transaction × Shared tables ops
    → Type 0
ActiveChanges t s c (err e, t', s') = t' ≡ t
ActiveChanges t s c (ok a, t', s') = Changed t t' s s' c × (is_active t.state ≡ true)

ActiveChanges-of_Changes :
    {A : Type 0} {tables : Tables} {ops : FileOps} (t : Transaction) (s : Shared tables ops)
    (c : Change) (r : Result A × Transaction × Shared tables ops)
    → is_active t.state ≡ true
    → Changes t s c r
    → ActiveChanges t s c r
ActiveChanges-of_Changes t s c (err e, t', s') a h = h
ActiveChanges-of_Changes t s c (ok x, t', s') a h = (h, a)

module _ {tables : Tables} {ops : FileOps} (lib : Crates) (config : WalWriterConfig) where
  logged-Changes :
      (t : Transaction) (s s₀ : Shared tables ops) (c : Change) (r : WalResult ℕ × WalWriter ops)
      → s.store ≡ s₀.store
      → Changes t s₀ c (logged lib config t s c r)
  logged-Changes t s s₀ c (WalResult.err e, wal) h = refl
  logged-Changes t s s₀ c (WalResult.ok lsn, wal) h = record { recorded = refl; same_store = h }

  log_change-Changes :
      (t : Transaction) (s s₀ : Shared tables ops) (c : Change) (draw : Draw)
      → s.store ≡ s₀.store
      → Changes t s₀ c (log_change lib config t s c draw)
  unfolding log_change
  log_change-Changes t s s₀ (k, some v) draw h = logged-Changes t s s₀ (k, some v) _ h
  log_change-Changes t s s₀ (k, none) draw h = logged-Changes t s s₀ (k, none) _ h

  put_locked-Changes :
      (t : Transaction) (s : Shared tables ops) (k : LockKey) (v : Bytes) (draw : Draw)
      (r : TransactionResult × ConflictDetector)
      → Changes t s (k, some v) (put_locked lib config t s k v draw r)
  put_locked-Changes t s k v draw (TransactionResult.err e, d) = refl
  put_locked-Changes t s k v draw (TransactionResult.ok, d) =
      log_change-Changes t (record s { detector = d }) s (k, some v) draw refl

  pub put_key-ActiveChanges :
      (t : Transaction) (s : Shared tables ops) (k : LockKey) (v : Bytes) (draw : Draw)
      → ActiveChanges t s (k, some v) (put_key lib config t s k v draw)
  unfolding put_key
  put_key-ActiveChanges t s k v draw = elim (Bool-cases (is_active t.state)) [
    | inl yes_active ↦ rw yes_active (
        ActiveChanges-of_Changes t s (k, some v)
          (put_locked lib config t s k v draw (lock_for_write s.detector k t.txn_id)) yes_active
          (put_locked-Changes t s k v draw (lock_for_write s.detector k t.txn_id)))
    | inr ended ↦ rw ended refl
  ]

  answer-Changes :
      (t : Transaction) (s : Shared tables ops) (c : Change) (b : Bool)
      (r : Done × Transaction × Shared tables ops)
      → Changes t s c r
      → Changes t s c (answer lib config b r)
  answer-Changes t s c b (err e, t', s') h = h
  answer-Changes t s c b (ok u, t', s') h = h

  delete_found-Changes :
      (t : Transaction) (s s₀ : Shared tables ops) (k : LockKey) (draw : Draw) (found : Result Bool)
      → s.store ≡ s₀.store
      → Changes t s₀ (k, none) (delete_found lib config t s k draw found)
  delete_found-Changes t s s₀ k draw (err e) h = refl
  delete_found-Changes t s s₀ k draw (ok b) h =
      answer-Changes t s₀ (k, none) b (log_change lib config t s (k, none) draw)
        (log_change-Changes t s s₀ (k, none) draw h)

  delete_locked-Changes :
      (t : Transaction) (s : Shared tables ops) (k : LockKey) (draw : Draw)
      (r : TransactionResult × ConflictDetector)
      → Changes t s (k, none) (delete_locked lib config t s k draw r)
  delete_locked-Changes t s k draw (TransactionResult.err e, d) = refl
  delete_locked-Changes t s k draw (TransactionResult.ok, d) =
      let s' : Shared tables ops = record s { detector = d } in
      delete_found-Changes t s' s k draw (existed lib config t s' k) refl

  pub delete_key-ActiveChanges :
      (t : Transaction) (s : Shared tables ops) (k : LockKey) (draw : Draw)
      → ActiveChanges t s (k, none) (delete_key lib config t s k draw)
  unfolding delete_key
  delete_key-ActiveChanges t s k draw = elim (Bool-cases (is_active t.state)) [
    | inl yes_active ↦ rw yes_active (
        ActiveChanges-of_Changes t s (k, none)
          (delete_locked lib config t s k draw (lock_for_write s.detector k t.txn_id)) yes_active
          (delete_locked-Changes t s k draw (lock_for_write s.detector k t.txn_id)))
    | inr ended ↦ rw ended refl
  ]
