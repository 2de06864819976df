-- ===== src/Wal/Writer/Active.antt =====
-- The sets of active transactions of the writer (src/wal/writer.rs), up to the order of their lists.
use mathlib.Core.Path.{subst}
use nanostore.Prelude.{
  ℕ, ◌≡◌, refl, true, false, ◌||◌, List, [], ◌∷◌, ◌++◌, ◌==◌, if◌then◌else◌, arith, ℕ_discrete,
}
use nanostore.Prelude.Members.{member}
use nanostore.Wal.Record.{RecordData, begin, write, commit, rollback, checkpoint, prepare}
use nanostore.Wal.Record.Frame.{WalRecord}
use nanostore.Wal.Writer.{insert_txn, remove_txn}
use nanostore.Wal.Reader.{extend, track, scan}

-- The same set.
abbrev pub Same : List ℕ → List ℕ → Type 0
Same us vs = (t : ℕ) → member t us ≡ member t vs

pub member-insert_txn :
    (t u : ℕ) (us : List ℕ) → member t (insert_txn u us) ≡ (if u == t then true else member t us)
member-insert_txn t u us = elim (ℕ_discrete u t) [
  | yes p ↦
      subst (λ v. member v (insert_txn u us) ≡ (if u == v then true else member v us)) p
        (ground arith)
  | no n ↦ ground arith
]

pub member-remove_txn :
    (t u : ℕ) (us : List ℕ) → member t (remove_txn u us) ≡ (if u == t then false else member t us)
unfolding remove_txn
member-remove_txn t u [] = ground arith
member-remove_txn t u (v ∷ us) = ground (arith, member-remove_txn t u us)

member-extend : (t : ℕ) (us vs : List ℕ) → member t (extend us vs) ≡ (member t us || member t vs)
unfolding extend
member-extend t [] vs = refl
member-extend t (u ∷ us) vs =
    ground (arith, member-extend t us (insert_txn u vs), member-insert_txn t u vs)

-- Tracking sees the set only.
pub track-Same : (r : RecordData) (us vs : List ℕ) → Same us vs → Same (track us r) (track vs r)
unfolding track
track-Same (begin u) us vs h t =
    ground (arith, member-insert_txn t u us, member-insert_txn t u vs, h t)
track-Same (commit u) us vs h t =
    ground (arith, member-remove_txn t u us, member-remove_txn t u vs, h t)
track-Same (rollback u) us vs h t =
    ground (arith, member-remove_txn t u us, member-remove_txn t u vs, h t)
track-Same (write u table_id op_type key value) us vs h t = h t
track-Same (prepare u) us vs h t = h t
track-Same (checkpoint lsn active) us vs h t = refl

-- A checkpoint's transactions, read into an empty set.
pub extend-Same : (us : List ℕ) → Same us (extend us [])
extend-Same us t = ground (arith, member-extend t us [])

pub scan-append :
    (st : ℕ × List ℕ) (rs : List WalRecord) (r : WalRecord)
    → scan st (rs ++ (r ∷ [])) ≡ (r.lsn, track (scan st rs).1 r.content)
unfolding scan
scan-append (last, active) [] r = refl
scan-append (last, active) (r' ∷ rs) r = scan-append (r'.lsn, track active r'.content) rs r
