-- ===== src/Txn/Version/Vacuum.antt =====
-- What `VersionChain::vacuum` (src/txn/version.rs) keeps, counts and hands back.
use mathlib.Core.List.{append_assoc}
use nanostore.Prelude.{
  ℕ, ◌+◌, ◌-◌, ◌≤◌, ◌<◌, ◌≡◌, refl, sym, true, false, List, [], ◌∷◌, ◌++◌, arith, inl, inr,
  Bool-cases, ◌∙◌,
}
use nanostore.Types.{ValueRef}
use nanostore.Prelude.Members.{member}
use nanostore.Snap.{Snapshot, is_visible}
use nanostore.Txn.Version.{
  Version, VersionChain, external, last, newer, is_obsolete, sees, freed, find_visible_version,
  Retained, retain_obsolete_versions, count_removable_obsolete_versions, vacuum,
  collect_external_refs,
}
use nanostore.Txn.Version.Chain.{
  AllObsolete, IsLayered, IsOrdered, IsOrdered-IsLayered, cut, refs_above_oldest, size, oldest,
}

top : VersionChain → Version
top (last v) = v
top (newer v c) = v

abbrev retained : ℕ → VersionChain → Retained
retained m c = retain_obsolete_versions c m 1 []

-- Over obsolete versions alone, the newest is left and the budget is used up.
retained-AllObsolete :
    (m : ℕ) (c : VersionChain)
    → AllObsolete m c
    → ((retained m c).chain ≡ last (top c))
      × ((retained m c).keep_obsolete_budget ≡ 0)
      × ((retained m c).freed_refs ≡ refs_above_oldest m c)
unfolding retain_obsolete_versions refs_above_oldest top
retained-AllObsolete m (last v) h = ground arith
retained-AllObsolete m (newer v c) h = ground (arith, retained-AllObsolete m c h.1)

cut-AllObsolete : (m : ℕ) (c : VersionChain) → AllObsolete m c → cut m c ≡ last (top c)
unfolding cut top
cut-AllObsolete m (last v) h = refl
cut-AllObsolete m (newer v c) h = ground arith

retained-cut :
    (m : ℕ) (c : VersionChain)
    → IsLayered m c
    → ((retained m c).chain ≡ cut m c) × ((retained m c).freed_refs ≡ refs_above_oldest m c)
unfolding retain_obsolete_versions refs_above_oldest cut
retained-cut m (last v) h = ground arith
retained-cut m (newer v c) h = elim (Bool-cases (is_obsolete m v)) [
  | inl obsolete ↦
      let (chain, budget, refs) = retained-AllObsolete m c (h.0 obsolete) in ground arith
  | inr kept ↦ ground (arith, retained-cut m c h.1)
]

abbrev count : ℕ → VersionChain → ℕ
count m c = count_removable_obsolete_versions c m

count-AllObsolete : (m : ℕ) (c : VersionChain) → AllObsolete m c → count m c ≡ size c
unfolding count_removable_obsolete_versions size
count-AllObsolete m (last v) h = ground arith
count-AllObsolete m (newer v c) h = ground (arith, count-AllObsolete m c h.1)

size-pos : (c : VersionChain) → 0 < size c
unfolding size
size-pos (last v) = omega arith
size-pos (newer v c) = omega arith

size-cut : (m : ℕ) (c : VersionChain) → IsLayered m c → size (cut m c) + (count m c - 1) ≡ size c
unfolding count_removable_obsolete_versions size cut
size-cut m (last v) h = ground arith
size-cut m (newer v c) h = elim (Bool-cases (is_obsolete m v)) [
  | inl obsolete ↦ ground (arith, count-AllObsolete m c (h.0 obsolete), size-pos c)
  | inr kept ↦ ground (arith, size-cut m c h.1)
]

-- With one obsolete version at most there is nothing to cut.
cut_few :
    (m : ℕ) (c : VersionChain)
    → IsLayered m c
    → count m c ≤ 1
    → (cut m c ≡ c) × (refs_above_oldest m c ≡ [])
unfolding count_removable_obsolete_versions cut refs_above_oldest
cut_few m (last v) h few = (refl, refl)
cut_few m (newer v c) h few = elim (Bool-cases (is_obsolete m v)) [
  | inl obsolete ↦ absurd (ground (arith, count-AllObsolete m c (h.0 obsolete), size-pos c))
  | inr kept ↦ ground (arith, cut_few m c h.1)
]

-- On a chain in commit order, `vacuum` leaves the chain down to the newest version that was
-- committed before the watermark, returns how many versions that removes, and returns the external
-- references of the versions committed before the watermark, oldest first, except for the oldest
-- one of the chain.
pub vacuum_lem :
    (m : ℕ) (c : VersionChain)
    → IsOrdered c
    → ((vacuum c m).chain ≡ cut m c)
      × (size (vacuum c m).chain + (vacuum c m).removed ≡ size c)
      × ((vacuum c m).freed_refs ≡ refs_above_oldest m c)
unfolding vacuum
vacuum_lem m c h =
    let layered = IsOrdered-IsLayered m c h in
    ground (arith, retained-cut m c layered, size-cut m c layered, cut_few m c layered)

-- The versions committed before the watermark are those of transactions that the snapshot does not
-- count as active.
abbrev pub NoneActive : Snapshot → ℕ → VersionChain → Type 0
NoneActive s m (last v) = is_obsolete m v ≡ true → member v.created_by s.active_txns ≡ false
NoneActive s m (newer v c) =
    (is_obsolete m v ≡ true → member v.created_by s.active_txns ≡ false) × NoneActive s m c

sees-obsolete :
    (s : Snapshot) (m : ℕ) (v : Version)
    → m ≤ s.lsn + 1
    → (is_obsolete m v ≡ true → member v.created_by s.active_txns ≡ false)
    → is_obsolete m v ≡ true
    → sees s v ≡ true
unfolding is_obsolete sees is_visible
sees-obsolete s m v h inactive obsolete = ground (arith, inactive obsolete)

find_visible-retained :
    (s : Snapshot) (m : ℕ) (c : VersionChain)
    → m ≤ s.lsn + 1
    → NoneActive s m c
    → find_visible_version (retained m c).chain s ≡ find_visible_version c s
unfolding find_visible_version retain_obsolete_versions
find_visible-retained s m (last v) h a = ground arith
find_visible-retained s m (newer v c) h a =
    ground (arith, sees-obsolete s m v h a.0, find_visible-retained s m c h a.1)

-- Vacuuming changes no read: a snapshot whose LSN is at least the watermark less one, and which
-- counts no transaction as active that committed a version before the watermark, reads the same
-- value from the vacuumed chain. The chain may be in any order.
pub find_visible-vacuum :
    (s : Snapshot) (m : ℕ) (c : VersionChain)
    → m ≤ s.lsn + 1
    → NoneActive s m c
    → find_visible_version (vacuum c m).chain s ≡ find_visible_version c s
unfolding vacuum
find_visible-vacuum s m c h a = ground (arith, find_visible-retained s m c h a)

-- The newest version before the watermark is the oldest that `cut` leaves, and it is obsolete if
-- anything was cut.
freed_of_oldest-cut :
    (m : ℕ) (c : VersionChain) (r : ValueRef)
    → IsLayered m c
    → 1 < count m c
    → (oldest (cut m c)).value ≡ external r
    → (before : List ValueRef) × (refs_above_oldest m c ≡ before ++ (r ∷ []))
unfolding count_removable_obsolete_versions cut refs_above_oldest oldest
freed_of_oldest-cut m (last v) r h many e = absurd (ground arith)
freed_of_oldest-cut m (newer v c) r h many e = elim (Bool-cases (is_obsolete m v)) [
  | inl obsolete ↦ (refs_above_oldest m c, ground arith)
  | inr kept ↦
      let (before, p) = freed_of_oldest-cut m c r h.1 (ground arith) (ground arith) in
      (before, ground arith)
]

many_removed : (m : ℕ) (c : VersionChain) → 0 < (vacuum c m).removed → 1 < count m c
unfolding vacuum
many_removed m c h = ground arith

collect-oldest :
    (c : VersionChain) (r : ValueRef)
    → (oldest c).value ≡ external r
    → (kept : List ValueRef) × (collect_external_refs c ≡ kept ++ (r ∷ []))
unfolding collect_external_refs oldest
collect-oldest (last v) r e = ([], ground arith)
collect-oldest (newer v c) r e =
    let (kept, p) = collect-oldest c r e in
    (freed v.value ++ kept, rw p (sym (append_assoc (freed v.value) kept (r ∷ []))))

-- On a chain in commit order from which `vacuum` removes a version, if the oldest version that it
-- leaves is external, then its reference is at once the last of the references that the chain still
-- holds and the last of those that `vacuum` hands back to be freed.
pub vacuum_frees_kept :
    (m : ℕ) (c : VersionChain) (r : ValueRef)
    → IsOrdered c
    → 0 < (vacuum c m).removed
    → (oldest (vacuum c m).chain).value ≡ external r
    → ((kept : List ValueRef) × (collect_external_refs (vacuum c m).chain ≡ kept ++ (r ∷ [])))
      × ((before : List ValueRef) × ((vacuum c m).freed_refs ≡ before ++ (r ∷ [])))
vacuum_frees_kept m c r h removed e =
    let layered = IsOrdered-IsLayered m c h in
    let (chain, sizes, refs) = vacuum_lem m c h in
    let (before, p) =
      freed_of_oldest-cut m c r layered (many_removed m c removed) (rw chain at e) in
    (collect-oldest _ r e, (before, refs ∙ p))
