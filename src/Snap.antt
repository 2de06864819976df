-- ===== src/Snap.antt =====
-- src/snap.rs: snapshots, and which committed versions a snapshot sees.
pub mod Visible
use nanostore.Prelude.Members.{member}
use nanostore.Prelude.{ℕ, Bool, true, false, not, List, [], ◌∷◌, ltb, leb, ◌==◌, if◌then◌else◌}

-- `created_at` is signed in the source and never read by this code: a number stands for it.
pub record Snapshot : Type 0 where
  pub id : ℕ
  pub name : List ℕ
  pub lsn : ℕ
  pub created_at : ℕ
  pub size_bytes : ℕ
  pub min_active_txn : ℕ
  pub active_txns : List ℕ

-- `active_txn_list.iter().min()` from a first element on
unfoldable pub min_from : ℕ → List ℕ → ℕ
min_from m [] = m
min_from m (t ∷ ts) = min_from (if ltb t m then t else m) ts

-- `.min().copied().unwrap_or(TransactionId::from(0))`
unfoldable pub min_active : List ℕ → ℕ
unfolding min_from
min_active [] = 0
min_active (t ∷ ts) = min_from t ts

-- `Snapshot::new`; `.into_iter().collect()` into the set keeps the same elements.
unfoldable pub new : ℕ → List ℕ → ℕ → ℕ → ℕ → List ℕ → Snapshot
unfolding min_active
new id name lsn created_at size_bytes active_txn_list = record {
  id = id;
  name = name;
  lsn = lsn;
  created_at = created_at;
  size_bytes = size_bytes;
  min_active_txn = min_active active_txn_list;
  active_txns = active_txn_list;
}

unfoldable pub is_visible : Snapshot → ℕ → ℕ → Bool
is_visible s version_lsn created_by =
    if ltb s.lsn version_lsn
    then false
    else if ltb created_by s.min_active_txn
    then true
    else not (member created_by s.active_txns)
