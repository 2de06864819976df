-- ===== src/Txn/Transaction/Reads.antt =====
-- What a transaction (src/txn/transaction.rs) reads after its own changes, and what its commit checks
-- of its reads.
use mathlib.Core.Logic.{ite}
use mathlib.Core.Path.{subst}
use nanostore.Prelude.{
  ℕ, ◌≡◌, refl, sym, ap, ◌∙◌, Bool, true, Option, none, some, List, [], inl, inr, arith, Bool-cases,
}
use nanostore.Prelude.Bytes.{Bytes}
use nanostore.Prelude.Maps.{get-insert}
use nanostore.Vfs.{FileOps}
use nanostore.Wal.Record.Frame.{Crates}
use nanostore.Wal.Writer.{WalWriterConfig, Draw}
use nanostore.Txn.Conflict.{
  LockKey, lock_key_discrete, ConflictDetector, TransactionResult, check_read_write_conflicts,
}
use nanostore.Txn.Transaction.{
  Result, ok, err, Done, IsolationLevel, read_uncommitted, read_committed, repeatable_read,
  serializable, snapshot_isolation, Durability, Change, Tables, Transaction, Shared, is_active,
  build, insert_read, record_read, lookup, put_key, delete_key, prepare,
}
use nanostore.Txn.Transaction.Commit.{check_isolation}
use nanostore.Txn.Transaction.Writes.{
  Changed, ActiveChanges, put_key-ActiveChanges, delete_key-ActiveChanges,
}

-- The answer of `delete` forgotten.
abbrev pub forget :
    {tables : Tables} {ops : FileOps}
    → Result Bool × Transaction × Shared tables ops
    → Done × Transaction × Shared tables ops
forget (err e, t, s) = (err e, t, s)
forget (ok b, t, s) = (ok tt, t, s)

module _ {tables : Tables} {ops : FileOps} (lib : Crates) (config : WalWriterConfig) where
  -- `put` or `delete`.
  unfoldable pub change :
      Transaction → Shared tables ops → Change → Draw → Done × Transaction × Shared tables ops
  unfolding put_key delete_key
  change t s (k, some v) draw = put_key lib config t s k v draw
  change t s (k, none) draw = forget (delete_key lib config t s k draw)

  forget-ActiveChanges :
      (t : Transaction) (s : Shared tables ops) (c : Change)
      (r : Result Bool × Transaction × Shared tables ops)
      → ActiveChanges t s c r
      → ActiveChanges t s c (forget r)
  forget-ActiveChanges t s c (err e, t', s') h = h
  forget-ActiveChanges t s c (ok b, t', s') h = h

  change-ActiveChanges :
      (t : Transaction) (s : Shared tables ops) (c : Change) (draw : Draw)
      → ActiveChanges t s c (change t s c draw)
  unfolding change
  change-ActiveChanges t s (k, some v) draw = put_key-ActiveChanges lib config t s k v draw
  change-ActiveChanges t s (k, none) draw =
      forget-ActiveChanges t s (k, none) (delete_key lib config t s k draw)
        (delete_key-ActiveChanges lib config t s k draw)

  lookup-Changed :
      (t t' : Transaction) (s s' : Shared tables ops) (k j : LockKey) (v : Option Bytes)
      → Changed t t' s s' (k, v)
      → is_active t.state ≡ true
      → lookup t' s' j ≡ ite (lock_key_discrete k j) (ok v) (lookup t s j)
  unfolding lookup
  lookup-Changed t t' s s' k j v c a =
      let own = get-insert lock_key_discrete j k v t.write_set in
      subst (λ u. lookup u s' j ≡ ite (lock_key_discrete k j) (ok v) (lookup t s j))
        (sym c.recorded) (ground (arith, own, a, c.same_store))

  -- A put or a delete that succeeds is what the transaction reads at that key, at once and before its
  -- commit; every other key reads as before.
  pub lookup-change :
      (t t' : Transaction) (s s' : Shared tables ops) (k j : LockKey) (v : Option Bytes)
      (draw : Draw)
      → change t s (k, v) draw ≡ (ok tt, t', s')
      → lookup t' s' j ≡ ite (lock_key_discrete k j) (ok v) (lookup t s j)
  lookup-change t t' s s' k j v draw e =
      let (c, a) = subst (ActiveChanges t s (k, v)) e (change-ActiveChanges t s (k, v) draw) in
      lookup-Changed t t' s s' k j v c a

-- The reads that count at an isolation level, and those of a transaction.
abbrev level : IsolationLevel → List LockKey → List LockKey
level read_uncommitted ks = []
level read_committed ks = []
level repeatable_read ks = ks
level serializable ks = ks
level snapshot_isolation ks = []

abbrev tracked : Transaction → List LockKey
tracked t = level t.isolation t.read_set

-- Those stay, with the level and the identifier.
Stays : Transaction → Transaction → Type 0
Stays t t' = (tracked t' ≡ tracked t) × (t'.isolation ≡ t.isolation)

Prepares : Transaction → Result Transaction → Type 0
Prepares t (err e) = Unit
Prepares t (ok t') = Stays t t'

prepare-Stays : (t t' : Transaction) → prepare t ≡ ok t' → Stays t t'
unfolding prepare Stays Prepares
prepare-Stays t t' e = subst (Prepares t) e (elim (Bool-cases (is_active t.state)) [
  | inl yes_active ↦ rw yes_active (refl, refl)
  | inr ended ↦ rw ended tt
])

ActiveChanges-Stays :
    {tables : Tables} {ops : FileOps} (t t' : Transaction) (s s' : Shared tables ops) (c : Change)
    (r : Done)
    → ActiveChanges t s c (r, t', s')
    → Stays t t'
unfolding Stays
ActiveChanges-Stays t t' s s' c (err e) h = (ap tracked h, ap (λ u. u.isolation) h)
ActiveChanges-Stays t t' s s' c (ok u) h =
    (ap tracked h.0.recorded, ap (λ u. u.isolation) h.0.recorded)

-- A read that is recorded.
record_read-fields :
    (t : Transaction) (k : LockKey) (i : IsolationLevel) (rs ks : List LockKey)
    → level i rs ≡ level i ks
    → let t' = record_read (record t { isolation = i; read_set = rs }) k in
      (tracked t' ≡ level t'.isolation (insert_read k ks))
unfolding record_read
record_read-fields t k read_uncommitted rs ks h = refl
record_read-fields t k read_committed rs ks h = refl
record_read-fields t k repeatable_read rs ks h = ap (insert_read k) h
record_read-fields t k serializable rs ks h = ap (insert_read k) h
record_read-fields t k snapshot_isolation rs ks h = refl

-- What the check of a commit at an isolation level says of a list of keys.
abbrev pub checked : IsolationLevel → ConflictDetector → List LockKey → ℕ → TransactionResult
checked read_uncommitted d ks txn_id = TransactionResult.ok
checked read_committed d ks txn_id = TransactionResult.ok
checked repeatable_read d ks txn_id = check_read_write_conflicts d ks txn_id
checked serializable d ks txn_id = check_read_write_conflicts d ks txn_id
checked snapshot_isolation d ks txn_id = TransactionResult.ok

checked_lem :
    (i : IsolationLevel) (d : ConflictDetector) (rs ks : List LockKey) (txn_id : ℕ)
    → level i rs ≡ level i ks
    → elim i [
      | read_uncommitted ↦ TransactionResult.ok
      | read_committed ↦ TransactionResult.ok
      | repeatable_read ↦ check_read_write_conflicts d rs txn_id
      | serializable ↦ check_read_write_conflicts d rs txn_id
      | snapshot_isolation ↦ TransactionResult.ok
    ]
      ≡ checked i d ks txn_id
checked_lem read_uncommitted d rs ks txn_id h = refl
checked_lem read_committed d rs ks txn_id h = refl
checked_lem repeatable_read d rs ks txn_id h = ap (λ xs. check_read_write_conflicts d xs txn_id) h
checked_lem serializable d rs ks txn_id h = ap (λ xs. check_read_write_conflicts d xs txn_id) h
checked_lem snapshot_isolation d rs ks txn_id h = refl

module _ (tables : Tables) (ops : FileOps) (lib : Crates) (config : WalWriterConfig) where
  -- The transactions that calls lead to, without their commit and rollback, with the keys that
  -- `record_read` was called with. `get` takes the transaction by a shared reference, so that it is no
  -- step.
  pub data Runs : List LockKey → Transaction → Type 0 where
    begun :
        (txn_id snapshot_lsn : ℕ) (isolation : IsolationLevel) (durability : Durability)
        → Runs [] (build txn_id snapshot_lsn isolation durability)
    recorded :
        {ks : List LockKey} {t : Transaction} (k : LockKey)
        → Runs ks t
        → Runs (insert_read k ks) (record_read t k)
    changed :
        {ks : List LockKey} {t t' : Transaction} (s s' : Shared tables ops) (c : Change)
        (draw : Draw) (r : Done)
        → Runs ks t
        → change lib config t s c draw ≡ (r, t', s')
        → Runs ks t'
    prepared : {ks : List LockKey} {t t' : Transaction} → Runs ks t → prepare t ≡ ok t' → Runs ks t'

  level-Stays :
      (t t' : Transaction) (ks : List LockKey)
      → Stays t t'
      → tracked t ≡ level t.isolation ks
      → tracked t' ≡ level t'.isolation ks
  unfolding Stays
  level-Stays t t' ks (same, isolation) h = same ∙ h ∙ ap (λ i. level i ks) (sym isolation)

  Runs-level : (ks : List LockKey) (t : Transaction) → Runs ks t → tracked t ≡ level t.isolation ks
  Runs-level ks t (begun txn_id snapshot_lsn isolation durability) = refl
  Runs-level ks t (recorded {ks = ks₀} {t = t₀} k before) =
      record_read-fields t₀ k t₀.isolation t₀.read_set ks₀ (Runs-level ks₀ t₀ before)
  Runs-level ks t (changed {t = t₀} s s' c draw r before e) =
      level-Stays t₀ t ks
        (ActiveChanges-Stays t₀ t s s' c r
          (subst (ActiveChanges t₀ s c) e (change-ActiveChanges lib config t₀ s c draw)))
        (Runs-level ks t₀ before)
  Runs-level ks t (prepared {t = t₀} before e) =
      level-Stays t₀ t ks (prepare-Stays t₀ t e) (Runs-level ks t₀ before)

  -- Whatever a transaction got, put and deleted, the check of its reads in commit is the check, at its
  -- isolation level, of exactly the keys that `record_read` was called with: no get, put, delete or
  -- prepare adds one.
  pub check_isolation-Runs :
      (ks : List LockKey) (t : Transaction) (d : ConflictDetector)
      → Runs ks t
      → check_isolation t d ≡ checked t.isolation d ks t.txn_id
  unfolding check_isolation
  check_isolation-Runs ks t d runs =
      checked_lem t.isolation d t.read_set ks t.txn_id (Runs-level ks t runs)
