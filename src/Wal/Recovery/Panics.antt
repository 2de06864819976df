-- ===== src/Wal/Recovery/Panics.antt =====
-- How recovery (src/wal/recovery.rs) answers each record: success, an error, or a panic.
use nanostore.Prelude.{ℕ, ◌≡◌, refl, ◌∙◌, ◌≢◌, List, ◌∷◌, ◌++◌, arith}
use nanostore.Wal.Error.{recovery_error, Operation}
use nanostore.Wal.Record.{
  WriteOpType, RecordData, begin, write, commit, rollback, checkpoint, prepare,
}
use nanostore.Prelude.Bytes.{Bytes}
use nanostore.Wal.Recovery.{
  WalRecovery, RecoveredWrite, Outcome, ok, err, panic, new, process_record, process_all,
}
use nanostore.Wal.Recovery.View.{
  step, View, unknown, running, undone, emptied, Shows, view, process_record-Shows,
  process_all-view, process_all-append,
}

-- The outcome without its value.
pub kind : Outcome WalRecovery → Outcome (Unit {0})
kind (ok s) = ok tt
kind (err e) = err e
kind panic = panic

-- The answer to a record whose transaction has the view `v`.
pub verdict : RecordData → View → Outcome (Unit {0})
verdict (write u table_id op key value) unknown = err (recovery_error 0 Operation.write)
verdict (write u table_id op key value) undone = panic
verdict (write u table_id op key value) emptied = panic
verdict (commit u) unknown = err (recovery_error 0 Operation.commit)
verdict (rollback u) unknown = err (recovery_error 0 Operation.rollback)
verdict r v = ok tt

-- The transaction of a record, if it has one, has the view `v` in `s`.
abbrev pub OwnView : RecordData → WalRecovery → View → Type 0
OwnView (begin u) s v = Shows u s v
OwnView (write u table_id op key value) s v = Shows u s v
OwnView (commit u) s v = Shows u s v
OwnView (rollback u) s v = Shows u s v
OwnView (checkpoint lsn active_txns) s v = Unit
OwnView (prepare u) s v = Shows u s v

-- Recovery refuses a write, a commit or a rollback of a transaction that it has not seen begin, by
-- the error that names the operation; it panics on a write of a transaction that was rolled back
-- and has not begun again; and it goes on after every other record.
pub process_record-verdict :
    (s : WalRecovery) (r : RecordData) (v : View)
    → OwnView r s v
    → kind (process_record s r) ≡ verdict r v
unfolding process_record kind verdict
process_record-verdict s (write u table_id op key value) unknown h = ground arith
process_record-verdict s (write u table_id op key value) v h = ground arith
process_record-verdict s (commit u) unknown h = ground arith
process_record-verdict s (commit u) v h = ground arith
process_record-verdict s (rollback u) unknown h = ground arith
process_record-verdict s (rollback u) v h = ground arith
process_record-verdict s (begin u) v h = refl
process_record-verdict s (prepare u) v h = refl
process_record-verdict s (checkpoint lsn active_txns) v h = refl

pub kind-ok : (m : Outcome WalRecovery) → kind m ≡ ok tt → (s : WalRecovery) × (m ≡ ok s)
unfolding kind
kind-ok (ok s) h = (s, refl)
kind-ok (err e) h = absurd (ground arith)
kind-ok panic h = absurd (ground arith)

kind-panic : (m : Outcome WalRecovery) → kind m ≡ panic → m ≡ panic
unfolding kind
kind-panic (ok s) h = absurd (ground arith)
kind-panic (err e) h = absurd (ground arith)
kind-panic panic h = refl

pub verdict-running : (r : RecordData) (ws : List RecoveredWrite) → verdict r (running ws) ≡ ok tt
unfolding verdict
verdict-running (write u table_id op key value) ws = refl
verdict-running _ ws = refl

-- A record that is processed whatever came before it.
abbrev pub Starts : RecordData → Type 0
Starts (begin u) = Unit
Starts (prepare u) = Unit
Starts (checkpoint lsn active_txns) = Unit
Starts _ = ⊥

pub verdict-Starts : (r : RecordData) (v : View) → Starts r → verdict r v ≡ ok tt
unfolding verdict
verdict-Starts (begin u) v h = refl
verdict-Starts (prepare u) v h = refl
verdict-Starts (checkpoint lsn active_txns) v h = refl
verdict-Starts (write u table_id op key value) v h = absurd h
verdict-Starts (commit u) v h = absurd h
verdict-Starts (rollback u) v h = absurd h

verdict-rollback : (t : ℕ) (v : View) → v ≢ unknown → verdict (rollback t) v ≡ ok tt
unfolding verdict
verdict-rollback t unknown h = absurd (h refl)
verdict-rollback t _ h = refl

step-rollback : (t : ℕ) (v : View) → v ≢ unknown → step t (rollback t) v ≡ undone
unfolding step
step-rollback t unknown h = absurd (h refl)
step-rollback t _ h = ground arith

-- After any log that is processed to its end and that mentions a begun transaction, a rollback of
-- that transaction followed by a write of it makes recovery panic, whatever the log goes on with.
pub write-rollback_panics :
    (t table_id : ℕ) (op : WriteOpType) (key value : Bytes) (rs more : List RecordData)
    (s : WalRecovery)
    → process_all new rs ≡ ok s
    → view t unknown rs ≢ unknown
    → process_all new (rs ++ (rollback t ∷ write t table_id op key value ∷ more)) ≡ panic
unfolding process_all verdict
write-rollback_panics t table_id op key value rs more s accepted known =
    let v = view t unknown rs in
    let shown = process_all-view t rs s accepted in
    let (s₁, e) =
      kind-ok _ (process_record-verdict s (rollback t) v shown ∙ verdict-rollback t v known) in
    let undone_shown : Shows t s₁ undone =
      rw (step-rollback t v known) at (process_record-Shows t s s₁ (rollback t) v shown e) in
    let w : RecordData = write t table_id op key value in
    let stops : process_record s₁ w ≡ panic =
      kind-panic _ (process_record-verdict s₁ w undone undone_shown) in
    process_all-append new rs (rollback t ∷ w ∷ more) ∙ rw (accepted, e, stops)
