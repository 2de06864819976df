-- ===== src/Table/Bloom/Tombstones.antt =====
-- src/table/bloom/tombstone.rs: the keys of rolled-back insertions. The hash set is a list without
-- repetition, whose order stands for any order.
pub mod Hidden
use nanostore.Prelude.{
  ℕ, ◌-◌, ◌≡◌, refl, ap, sym, ◌∙◌, Bool, true, false, not, ◌&&◌, ◌||◌, Option, none, some, List, [],
  ◌∷◌, length, ◌==◌, leb, ltb, if◌then◌else◌, arith,
}
use nanostore.Prelude.Bytes.{Bytes, bytes_eq, bytes_eq_sound}
use nanostore.Snap.{Snapshot}

pub record BloomTombstone : Type 0 where
  pub key : Bytes
  pub tombstone_tx_id : ℕ
  pub tombstone_lsn : Option ℕ

-- `BloomTombstone::new`
abbrev pub new_tombstone : Bytes → ℕ → BloomTombstone
new_tombstone key tx_id = record { key = key; tombstone_tx_id = tx_id; tombstone_lsn = none }

-- `BloomTombstone::commit`
abbrev pub commit : BloomTombstone → ℕ → BloomTombstone
commit t lsn = record t { tombstone_lsn = some lsn }

-- `BloomTombstone::is_visible`
unfoldable pub is_visible : BloomTombstone → Snapshot → Bool
is_visible t snapshot = elim t.tombstone_lsn [ none ↦ false | some lsn ↦ leb lsn snapshot.lsn ]

-- The derived equality.
abbrev pub lsn_eq : Option ℕ → Option ℕ → Bool
lsn_eq none none = true
lsn_eq none (some b) = false
lsn_eq (some a) none = false
lsn_eq (some a) (some b) = a == b

unfoldable pub tombstone_eq : BloomTombstone → BloomTombstone → Bool
tombstone_eq t u =
    bytes_eq t.key u.key
    && (t.tombstone_tx_id == u.tombstone_tx_id)
    && lsn_eq t.tombstone_lsn u.tombstone_lsn

abbrev pub BloomTombstoneSet : Type 0
BloomTombstoneSet = List BloomTombstone

-- `HashSet::insert`
unfoldable pub has : BloomTombstoneSet → BloomTombstone → Bool
has [] t = false
has (u ∷ us) t = if tombstone_eq u t then true else has us t

unfoldable pub insert_tombstone : BloomTombstoneSet → BloomTombstone → BloomTombstoneSet
insert_tombstone us t = if has us t then us else t ∷ us

unfoldable pub add : BloomTombstoneSet → Bytes → ℕ → BloomTombstoneSet
add us key tx_id = insert_tombstone us (new_tombstone key tx_id)

unfoldable pub is_tombstoned : BloomTombstoneSet → Bytes → Snapshot → Bool
is_tombstoned [] key snapshot = false
is_tombstoned (u ∷ us) key snapshot =
    (bytes_eq u.key key && is_visible u snapshot) || is_tombstoned us key snapshot

-- What the loop of `commit_tombstones` does to one tombstone.
unfoldable pub commit_if : ℕ → ℕ → BloomTombstone → BloomTombstone
commit_if tx_id lsn t = elim t.tombstone_lsn [
  | none ↦ if t.tombstone_tx_id == tx_id then commit t lsn else t
  | some _ ↦ t
]

-- `for tombstone in self.tombstones.drain()`, with the set built so far
unfoldable pub commit_all : BloomTombstoneSet → BloomTombstoneSet → ℕ → ℕ → BloomTombstoneSet
commit_all [] updated tx_id lsn = updated
commit_all (t ∷ ts) updated tx_id lsn =
    commit_all ts (insert_tombstone updated (commit_if tx_id lsn t)) tx_id lsn

unfoldable pub commit_tombstones : BloomTombstoneSet → ℕ → ℕ → BloomTombstoneSet
commit_tombstones us tx_id commit_lsn = commit_all us [] tx_id commit_lsn

-- `retain`, with its test
unfoldable pub keeps : ℕ → BloomTombstone → Bool
keeps min_visible_lsn t = elim t.tombstone_lsn [ none ↦ true | some lsn ↦ ltb min_visible_lsn lsn ]

unfoldable pub retain : ℕ → BloomTombstoneSet → BloomTombstoneSet
retain min_visible_lsn [] = []
retain min_visible_lsn (t ∷ ts) =
    let rest = retain min_visible_lsn ts in if keeps min_visible_lsn t then t ∷ rest else rest

unfoldable pub vacuum : BloomTombstoneSet → ℕ → ℕ × BloomTombstoneSet
vacuum us min_visible_lsn = let kept = retain min_visible_lsn us in (length us - length kept, kept)
