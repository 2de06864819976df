-- ===== src/Txn/Transaction/Commit/Applied.antt =====
-- What the loops of `commit` over the write set and its tables (src/txn/transaction.rs) do to the
-- tables when they succeed.
use nanostore.Prelude.{ℕ, ◌≡◌, refl, List, [], ◌∷◌}
use nanostore.Txn.Transaction.{ok, err, Done, Change, Tables, Transaction}
use nanostore.Txn.Transaction.Commit.{go_on, apply_all, commit_tables}

-- Each change was applied, one after the other.
pub data Applied (tables : Tables) (t : Transaction)
    : List Change → tables.State → tables.State → Type 0 where
  no_change : {store : tables.State} → Applied tables t [] store store
  change_then :
      {c : Change} {cs : List Change} {store store₁ store₂ : tables.State}
      → tables.apply store t.txn_id t.snapshot_lsn c ≡ (ok tt, store₁)
      → Applied tables t cs store₁ store₂
      → Applied tables t (c ∷ cs) store store₂

-- Each table made the versions of the transaction visible from the LSN on.
pub data Published (tables : Tables) (t : Transaction) (lsn : ℕ)
    : List ℕ → tables.State → tables.State → Type 0 where
  no_table : {store : tables.State} → Published tables t lsn [] store store
  table_then :
      {i : ℕ} {is : List ℕ} {store store₁ store₂ : tables.State}
      → tables.commit_versions store i t.txn_id lsn ≡ (ok tt, store₁)
      → Published tables t lsn is store₁ store₂
      → Published tables t lsn (i ∷ is) store store₂

module _ (tables : Tables) (t : Transaction) where
  -- A loop that succeeds.
  abbrev pub Applies : List Change → tables.State → Done × tables.State → Type 0
  Applies cs store (err e, store') = Unit
  Applies cs store (ok u, store') = Applied tables t cs store store'

  abbrev pub Publishes : ℕ → List ℕ → tables.State → Done × tables.State → Type 0
  Publishes lsn is store (err e, store') = Unit
  Publishes lsn is store (ok u, store') = Published tables t lsn is store store'

  Applies-cons :
      (c : Change) (cs : List Change) (store store₁ : tables.State) (r : Done × tables.State)
      → tables.apply store t.txn_id t.snapshot_lsn c ≡ (ok tt, store₁)
      → Applies cs store₁ r
      → Applies (c ∷ cs) store r
  Applies-cons c cs store store₁ (err e, store₂) first rest = tt
  Applies-cons c cs store store₁ (ok u, store₂) first rest = change_then first rest

  Publishes-cons :
      (lsn i : ℕ) (is : List ℕ) (store store₁ : tables.State) (r : Done × tables.State)
      → tables.commit_versions store i t.txn_id lsn ≡ (ok tt, store₁)
      → Publishes lsn is store₁ r
      → Publishes lsn (i ∷ is) store r
  Publishes-cons lsn i is store store₁ (err e, store₂) first rest = tt
  Publishes-cons lsn i is store store₁ (ok u, store₂) first rest = table_then first rest

  apply_first :
      (c : Change) (cs : List Change) (store : tables.State) (p : Done × tables.State)
      → tables.apply store t.txn_id t.snapshot_lsn c ≡ p
      → ((store₁ : tables.State) → Applies cs store₁ (apply_all tables t cs store₁))
      → Applies (c ∷ cs) store (go_on p (apply_all tables t cs))
  apply_first c cs store (err e, store₁) first rest = tt
  apply_first c cs store (ok u, store₁) first rest =
      Applies-cons c cs store store₁ (apply_all tables t cs store₁) first (rest store₁)

  pub apply_all-Applies :
      (cs : List Change) (store : tables.State) → Applies cs store (apply_all tables t cs store)
  unfolding apply_all
  apply_all-Applies [] store = no_change
  apply_all-Applies (c ∷ cs) store =
      apply_first c cs store (tables.apply store t.txn_id t.snapshot_lsn c) refl
        (apply_all-Applies cs)

  publish_first :
      (lsn i : ℕ) (is : List ℕ) (store : tables.State) (p : Done × tables.State)
      → tables.commit_versions store i t.txn_id lsn ≡ p
      → ((store₁ : tables.State) → Publishes lsn is store₁ (commit_tables tables t lsn is store₁))
      → Publishes lsn (i ∷ is) store (go_on p (commit_tables tables t lsn is))
  publish_first lsn i is store (err e, store₁) first rest = tt
  publish_first lsn i is store (ok u, store₁) first rest =
      Publishes-cons lsn i is store store₁ (commit_tables tables t lsn is store₁) first
        (rest store₁)

  pub commit_tables-Publishes :
      (lsn : ℕ) (is : List ℕ) (store : tables.State)
      → Publishes lsn is store (commit_tables tables t lsn is store)
  unfolding commit_tables
  commit_tables-Publishes lsn [] store = no_table
  commit_tables-Publishes lsn (i ∷ is) store =
      publish_first lsn i is store (tables.commit_versions store i t.txn_id lsn) refl
        (commit_tables-Publishes lsn is)
