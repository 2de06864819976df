-- ===== src/Txn/Version/Reads.antt =====
-- What a snapshot reads from a chain (src/txn/version.rs).
use nanostore.Prelude.{ℕ, ◌≡◌, refl, not, ◌&&◌, some, List, leb, if◌then◌else◌}
use nanostore.Prelude.Bytes.{Bytes}
use nanostore.Snap
use nanostore.Prelude.Members.{member}
use nanostore.Snap.{Snapshot, is_visible}
use nanostore.Snap.Visible.{is_visible-new}
use nanostore.Txn.Version.{VersionChain, inline, find_visible_version, commit, prepend}

-- After a transaction has put a version in front of a chain and committed it, a snapshot made by
-- `Snapshot::new` reads that version if it was committed at or before the snapshot's LSN by a
-- transaction that was not active then, and otherwise what it read before.
pub find_visible-commit :
    (c : VersionChain) (value : Bytes) (txn lsn : ℕ) (id : ℕ) (name : List ℕ)
    (at created_at bytes : ℕ) (active : List ℕ)
    → let s = Snap.new id name at created_at bytes active in
      find_visible_version (commit (prepend c value txn) lsn) s ≡ (
        if leb lsn at && not (member txn active)
        then some (inline value)
        else find_visible_version c s)
unfolding find_visible_version commit prepend
find_visible-commit c value txn lsn id name at created_at bytes active =
    rw (is_visible-new id name at created_at bytes active lsn txn) refl
