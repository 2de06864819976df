-- ===== src/Snap/Visible.antt =====
-- The watermark of `Snapshot::new` (src/snap.rs) as an optimisation of the membership test.
use nanostore.Prelude.{
  ℕ, ◌≤◌, ◌<◌, ◌≡◌, refl, false, not, ◌&&◌, List, [], ◌∷◌, arith, ltb, leb, if◌then◌else◌,
}
use nanostore.Prelude.Members.{member}
use nanostore.Snap.{min_from, min_active, new, is_visible}

min_from-le : (m : ℕ) (ts : List ℕ) → min_from m ts ≤ m
unfolding min_from
min_from-le m [] = omega arith
min_from-le m (t ∷ ts) = ground (arith, min_from-le (if ltb t m then t else m) ts)

below_min_from : (x m : ℕ) (ts : List ℕ) → x < min_from m ts → member x ts ≡ false
unfolding min_from
below_min_from x m [] h = refl
below_min_from x m (t ∷ ts) h = ground (
  arith,
  below_min_from x (if ltb t m then t else m) ts h,
  min_from-le (if ltb t m then t else m) ts,
)

-- Below the watermark no transaction is active.
below_min_active : (x : ℕ) (ts : List ℕ) → x < min_active ts → member x ts ≡ false
unfolding min_active
below_min_active x [] h = refl
below_min_active x (t ∷ ts) h = ground (arith, below_min_from x t ts, min_from-le t ts)

-- A version is visible to a snapshot made by `new` exactly when its LSN is at most the snapshot's
-- and its creator is not in the list of active transactions: the watermark changes no answer.
pub is_visible-new :
    (id : ℕ) (name : List ℕ) (lsn created_at size : ℕ) (active : List ℕ) (version_lsn txn : ℕ)
    → is_visible (new id name lsn created_at size active) version_lsn txn
      ≡ (leb version_lsn lsn && not (member txn active))
unfolding is_visible new
is_visible-new id name lsn created_at size active version_lsn txn =
    ground (arith, below_min_active txn active)
