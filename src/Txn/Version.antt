-- ===== src/Txn/Version.antt =====
-- src/txn/version.rs: the versions of one key, newest first, reads through a snapshot, and vacuum.
pub mod Chain
pub mod Reads
pub mod Vacuum
use nanostore.Prelude.{
  ℕ, ◌+◌, ◌-◌, Bool, true, false, not, ◌&&◌, Option, none, some, List, [], ◌∷◌, ◌++◌, length, ltb,
  ◌==◌, if◌then◌else◌,
}
use nanostore.Prelude.Bytes.{Bytes}
use nanostore.Types
use nanostore.Types.{ValueRef}
use nanostore.Snap.{Snapshot, is_visible}

pub data VersionValue : Type 0 where
  inline : Bytes → VersionValue
  external : ValueRef → VersionValue

unfoldable pub is_inline : VersionValue → Bool
is_inline (inline bytes) = true
is_inline (external r) = false

unfoldable pub is_external : VersionValue → Bool
is_external (inline bytes) = false
is_external (external r) = true

unfoldable pub as_inline : VersionValue → Option Bytes
as_inline (inline bytes) = some bytes
as_inline (external r) = none

unfoldable pub as_external : VersionValue → Option ValueRef
as_external (inline bytes) = none
as_external (external r) = some r

unfoldable pub size_hint : VersionValue → Option ℕ
unfolding Types.size_hint
size_hint (inline bytes) = some (length bytes)
size_hint (external r) = Types.size_hint r

-- `is_empty`, the test for a tombstone
unfoldable pub is_empty : VersionValue → Bool
unfolding Types.size_hint
is_empty (inline []) = true
is_empty (inline (b ∷ bytes)) = false
is_empty (external r) = elim (Types.size_hint r) [ none ↦ false | some size ↦ size == 0 ]

-- `len`
unfoldable pub len : VersionValue → ℕ
unfolding Types.size_hint
len (inline bytes) = length bytes
len (external r) = elim (Types.size_hint r) [ none ↦ 0 | some size ↦ size ]

-- The fields of one node of the chain.
pub record Version : Type 0 where
  pub value : VersionValue
  pub created_by : ℕ
  pub commit_lsn : Option ℕ

-- `VersionChain`: a version with `prev_version: None`, or in front of an older chain.
pub data VersionChain : Type 0 where
  last : Version → VersionChain
  newer : Version → VersionChain → VersionChain

-- a node over `prev_version`
abbrev pub attach : Version → Option VersionChain → VersionChain
attach v none = last v
attach v (some c) = newer v c

unfoldable pub prev_version : VersionChain → Option VersionChain
prev_version (last v) = none
prev_version (newer v c) = some c

unfoldable pub new : Bytes → ℕ → VersionChain
new value created_by =
    last (record { value = inline value; created_by = created_by; commit_lsn = none })

unfoldable pub new_external : ValueRef → ℕ → VersionChain
new_external value_ref created_by =
    last (record { value = external value_ref; created_by = created_by; commit_lsn = none })

unfoldable pub commit : VersionChain → ℕ → VersionChain
commit (last v) lsn = last (record v { commit_lsn = some lsn })
commit (newer v c) lsn = newer (record v { commit_lsn = some lsn }) c

unfoldable pub prepend : VersionChain → Bytes → ℕ → VersionChain
prepend c value created_by =
    newer (record { value = inline value; created_by = created_by; commit_lsn = none }) c

unfoldable pub prepend_external : VersionChain → ValueRef → ℕ → VersionChain
prepend_external c value_ref created_by =
    newer (record { value = external value_ref; created_by = created_by; commit_lsn = none }) c

-- the test of one node in `find_visible_version`
unfoldable pub sees : Snapshot → Version → Bool
sees s v = elim v.commit_lsn [ none ↦ false | some lsn ↦ is_visible s lsn v.created_by ]

unfoldable pub find_visible_version : VersionChain → Snapshot → Option VersionValue
unfolding sees
find_visible_version (last v) s = if sees s v then some v.value else none
find_visible_version (newer v c) s = if sees s v then some v.value else find_visible_version c s

unfoldable pub find_visible_inline : VersionChain → Snapshot → Option Bytes
unfolding find_visible_version
find_visible_inline c s = elim (find_visible_version c s) [
  | some (inline bytes) ↦ some bytes
  | some (external r) ↦ none
  | none ↦ none
]

-- `matches!(node.commit_lsn, Some(lsn) if lsn < min_visible_lsn)`
unfoldable pub is_obsolete : ℕ → Version → Bool
is_obsolete min_visible_lsn v = elim v.commit_lsn [
  | none ↦ false
  | some lsn ↦ ltb lsn min_visible_lsn
]

-- What `retain_obsolete_versions` returns and leaves in its two `&mut` arguments.
pub record Retained : Type 0 where
  pub chain : VersionChain
  pub keep_obsolete_budget : ℕ
  pub freed_refs : List ValueRef

abbrev pub freed : VersionValue → List ValueRef
freed (inline bytes) = []
freed (external r) = r ∷ []

-- The statements of `retain_obsolete_versions` after the recursive call, whose result is
-- `rebuilt_prev`, `budget` and `refs`.
unfoldable pub retain_node : ℕ → Version → Option VersionChain → ℕ → List ValueRef → Retained
unfolding is_obsolete prev_version
retain_node min_visible_lsn v rebuilt_prev budget refs =
    let obsolete = is_obsolete min_visible_lsn v in
    let keep_this_obsolete = obsolete && ltb 0 budget in
    let will_be_removed = obsolete && not keep_this_obsolete in
    record {
      chain = attach v (
          if will_be_removed
          then elim rebuilt_prev [ none ↦ none | some prev ↦ prev_version prev ]
          else rebuilt_prev);
      keep_obsolete_budget = if keep_this_obsolete then budget - 1 else budget;
      freed_refs = if will_be_removed then refs ++ freed v.value else refs;
    }

unfoldable pub retain_obsolete_versions : VersionChain → ℕ → ℕ → List ValueRef → Retained
unfolding retain_node
retain_obsolete_versions (last v) min_visible_lsn budget refs =
    retain_node min_visible_lsn v none budget refs
retain_obsolete_versions (newer v c) min_visible_lsn budget refs =
    let r = retain_obsolete_versions c min_visible_lsn budget refs in
    retain_node min_visible_lsn v (some r.chain) r.keep_obsolete_budget r.freed_refs

unfoldable pub count_removable_obsolete_versions : VersionChain → ℕ → ℕ
unfolding is_obsolete
count_removable_obsolete_versions (last v) m = (if is_obsolete m v then 1 else 0) + 0
count_removable_obsolete_versions (newer v c) m =
    (if is_obsolete m v then 1 else 0) + count_removable_obsolete_versions c m

-- What `vacuum` returns, and the chain that it leaves in `self`.
pub record Vacuumed : Type 0 where
  pub chain : VersionChain
  pub removed : ℕ
  pub freed_refs : List ValueRef

-- `saturating_sub` is the subtraction of the numbers here.
unfoldable pub vacuum : VersionChain → ℕ → Vacuumed
unfolding retain_obsolete_versions count_removable_obsolete_versions
vacuum c min_visible_lsn =
    let removed = count_removable_obsolete_versions c min_visible_lsn - 1 in
    let r = retain_obsolete_versions c min_visible_lsn 1 [] in
    if removed == 0
    then record { chain = c; removed = 0; freed_refs = [] }
    else record { chain = r.chain; removed = removed; freed_refs = r.freed_refs }

unfoldable pub collect_external_refs : VersionChain → List ValueRef
collect_external_refs (last v) = freed v.value
collect_external_refs (newer v c) = freed v.value ++ collect_external_refs c
