-- ===== src/Tests/Versions.antt =====
-- Chains and snapshots (src/snap.rs, src/txn/version.rs), and encoded references (src/types.rs).
use nanostore.Prelude.{
  ℕ, ◌≡◌, ◌<◌, refl, some, List, [], ◌∷◌, ◌++◌, arith, leb, not, ◌&&◌, if◌then◌else◌,
}
use nanostore.Prelude.Members.{member}
use nanostore.Types
use nanostore.Types.{ValueRef, single_page, overflow_chain, encode, decode}
use nanostore.Types.RoundTrip.{decode-encode}
use nanostore.Snap
use nanostore.Snap.{Snapshot, is_visible}
use nanostore.Snap.Visible.{is_visible-new}
use nanostore.Txn.Version.{
  VersionChain, last, newer, inline, external, find_visible_version, commit, prepend, vacuum,
  collect_external_refs, is_obsolete,
}
use nanostore.Txn.Version.Chain.{IsOrdered, oldest}
use nanostore.Txn.Version.Reads.{find_visible-commit}
use nanostore.Txn.Version.Vacuum.{NoneActive, find_visible-vacuum, vacuum_frees_kept}

abbrev page : ℕ → ValueRef
page p = single_page p 0 10

-- Three external values that were committed at 9, 5 and 2.
abbrev three : VersionChain
three =
    newer (record { value = external (page 3); created_by = 30; commit_lsn = some 9 })
      (newer (record { value = external (page 2); created_by = 20; commit_lsn = some 5 })
        (last (record { value = external (page 1); created_by = 10; commit_lsn = some 2 })))

three-IsOrdered : IsOrdered three
three-IsOrdered =
    (((5, refl, ground arith), (2, refl, ground arith)), ((2, refl, ground arith), tt))

three_removed : 0 < (vacuum three 7).removed
unfolding vacuum
three_removed = ground arith

three-oldest : (oldest (vacuum three 7).chain).value ≡ external (page 2)
unfolding vacuum oldest
three-oldest = refl

vacuum_frees_kept_example :
    ((kept : List ValueRef) × (collect_external_refs (vacuum three 7).chain
        ≡ kept ++ (page 2 ∷ [])))
    × ((before : List ValueRef) × ((vacuum three 7).freed_refs ≡ before ++ (page 2 ∷ [])))
vacuum_frees_kept_example =
    vacuum_frees_kept 7 three (page 2) three-IsOrdered three_removed three-oldest

abbrev at_eight : Snapshot
at_eight = record {
  id = 1;
  name = [];
  lsn = 8;
  created_at = 0;
  size_bytes = 0;
  min_active_txn = 30;
  active_txns = 30 ∷ [];
}

three-NoneActive : NoneActive at_eight 7 three
unfolding is_obsolete
three-NoneActive = ((λ h. absurd (ground arith)), ((λ h. refl), (λ h. refl)))

find_visible-vacuum_example :
    find_visible_version (vacuum three 7).chain at_eight ≡ find_visible_version three at_eight
find_visible-vacuum_example = find_visible-vacuum at_eight 7 three (ground arith) three-NoneActive

is_visible-new_example :
    is_visible (Snap.new 1 [] 8 0 0 (30 ∷ 40 ∷ [])) 5 40
    ≡ (leb 5 8 && not (member 40 (30 ∷ 40 ∷ [])))
is_visible-new_example = is_visible-new 1 [] 8 0 0 (30 ∷ 40 ∷ []) 5 40

find_visible-commit_example :
    find_visible_version
      (commit (prepend three (1 ∷ 2 ∷ []) 40) 11)
      (Snap.new 1 [] 12 0 0 (50 ∷ []))
    ≡ (if leb 11 12 && not (member 40 (50 ∷ []))
        then some (inline (1 ∷ 2 ∷ []))
        else find_visible_version three (Snap.new 1 [] 12 0 0 (50 ∷ [])))
find_visible-commit_example = find_visible-commit three (1 ∷ 2 ∷ []) 40 11 1 [] 12 0 0 (50 ∷ [])

decode-encode_example :
    decode (encode (overflow_chain 77 70000 18)) ≡ Types.ok (overflow_chain 77 70000 18)
decode-encode_example = decode-encode (overflow_chain 77 70000 18) (ground arith)
