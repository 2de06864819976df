-- ===== src/Txn/Version/Chain.antt =====
-- The order that committing keeps in a chain of src/txn/version.rs, and what vacuuming should leave.
use nanostore.Prelude.{
  ℕ, ◌≤◌, ◌≡◌, refl, true, Option, none, some, List, [], ◌++◌, arith, ltb, if◌then◌else◌, suc,
}
use nanostore.Types.{ValueRef}
use nanostore.Txn.Version.{Version, VersionChain, last, newer, is_obsolete, freed}

-- Every version is committed at `lsn` or before.
abbrev pub AtMost : ℕ → VersionChain → Type 0
AtMost lsn (last v) = (l : ℕ) × (v.commit_lsn ≡ some l) × (l ≤ lsn)
AtMost lsn (newer v c) = ((l : ℕ) × (v.commit_lsn ≡ some l) × (l ≤ lsn)) × AtMost lsn c

abbrev pub Covers : Option ℕ → VersionChain → Type 0
Covers none c = Unit
Covers (some lsn) c = AtMost lsn c

-- Below a committed version all are committed, at the same LSN or before.
abbrev pub IsOrdered : VersionChain → Type 0
IsOrdered (last v) = Unit
IsOrdered (newer v c) = Covers v.commit_lsn c × IsOrdered c

abbrev pub AllObsolete : ℕ → VersionChain → Type 0
AllObsolete m (last v) = is_obsolete m v ≡ true
AllObsolete m (newer v c) = (is_obsolete m v ≡ true) × AllObsolete m c

-- Where a version is obsolete, the older ones are.
abbrev pub IsLayered : ℕ → VersionChain → Type 0
IsLayered m (last v) = Unit
IsLayered m (newer v c) = (is_obsolete m v ≡ true → AllObsolete m c) × IsLayered m c

obsolete_of_at_most :
    (m lsn : ℕ) (v : Version)
    → ltb lsn m ≡ true
    → (l : ℕ) × (v.commit_lsn ≡ some l) × (l ≤ lsn)
    → is_obsolete m v ≡ true
unfolding is_obsolete
obsolete_of_at_most m lsn v h (l, e, le) = ground arith

AllObsolete-of-AtMost :
    (m lsn : ℕ) (c : VersionChain) → ltb lsn m ≡ true → AtMost lsn c → AllObsolete m c
AllObsolete-of-AtMost m lsn (last v) h a = obsolete_of_at_most m lsn v h a
AllObsolete-of-AtMost m lsn (newer v c) h a =
    (obsolete_of_at_most m lsn v h a.0, AllObsolete-of-AtMost m lsn c h a.1)

AllObsolete-of-Covers :
    (m : ℕ) (v : Version) (o : Option ℕ) (c : VersionChain)
    → v.commit_lsn ≡ o
    → Covers o c
    → is_obsolete m v ≡ true
    → AllObsolete m c
unfolding is_obsolete
AllObsolete-of-Covers m v none c e h obsolete = absurd (ground arith)
AllObsolete-of-Covers m v (some lsn) c e h obsolete = AllObsolete-of-AtMost m lsn c (ground arith) h

pub IsOrdered-IsLayered : (m : ℕ) (c : VersionChain) → IsOrdered c → IsLayered m c
IsOrdered-IsLayered m (last v) h = tt
IsOrdered-IsLayered m (newer v c) h =
    (AllObsolete-of-Covers m v v.commit_lsn c refl h.0, IsOrdered-IsLayered m c h.1)

-- The chain down to the newest obsolete version.
unfoldable pub cut : ℕ → VersionChain → VersionChain
cut m (last v) = last v
cut m (newer v c) = if is_obsolete m v then last v else newer v (cut m c)

-- The references of the obsolete versions, oldest first, without that of the oldest version.
unfoldable pub refs_above_oldest : ℕ → VersionChain → List ValueRef
refs_above_oldest m (last v) = []
refs_above_oldest m (newer v c) =
    if is_obsolete m v then refs_above_oldest m c ++ freed v.value else refs_above_oldest m c

unfoldable pub size : VersionChain → ℕ
size (last v) = 1
size (newer v c) = suc (size c)

unfoldable pub oldest : VersionChain → Version
oldest (last v) = v
oldest (newer v c) = oldest c
