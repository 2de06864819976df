-- ===== src/Wal/Recovery/Commit.antt =====
-- What recovery (src/wal/recovery.rs) restores of a transaction that committed, with and without
-- the prepare record that a commit writes (src/txn/transaction.rs).
use mathlib.Core.Logic.{ite}
use mathlib.Core.List.{append_assoc, append-nil}
use nanostore.Prelude.{
  ℕ, ◌≡◌, refl, ◌∙◌, ap, none, some, List, [], ◌∷◌, ◌++◌, arith, ℕ_discrete, map,
}
use nanostore.Wal.Record.{
  RecordData, begin, write, commit, rollback, checkpoint, prepare, txn_id_of,
}
use nanostore.Wal.Recovery.{
  WalRecovery, RecoveredWrite, ok, new, process_all, state_of, writes_of, committed,
}
use nanostore.Wal.Recovery.View.{View, unknown, running, done, step, view, process_all-view}

-- The records of the transaction `t`.
unfoldable pub own : ℕ → List RecordData → List RecordData
unfolding txn_id_of
own t [] = []
own t (r ∷ rs) = elim (txn_id_of r) [
  | none ↦ own t rs
  | some u ↦ ite (ℕ_discrete u t) (r ∷ own t rs) (own t rs)
]

-- The records of other transactions do not touch the view.
view-own : (t : ℕ) (v : View) (rs : List RecordData) → view t v rs ≡ view t v (own t rs)
unfolding view own
view-own t v [] = refl
view-own t v (begin u ∷ rs) = ground (arith, view-own t v rs, view-own t (step t (begin u) v) rs)
view-own t v (write u i op k x ∷ rs) =
    ground (arith, view-own t v rs, view-own t (step t (write u i op k x) v) rs)
view-own t v (commit u ∷ rs) = ground (arith, view-own t v rs, view-own t (step t (commit u) v) rs)
view-own t v (rollback u ∷ rs) =
    ground (arith, view-own t v rs, view-own t (step t (rollback u) v) rs)
view-own t v (prepare u ∷ rs) =
    ground (arith, view-own t v rs, view-own t (step t (prepare u) v) rs)
view-own t v (checkpoint lsn active_txns ∷ rs) = view-own t v rs

-- The record that is written for a write of `t`.
abbrev pub write_record : ℕ → RecoveredWrite → RecordData
write_record t w = write t w.table_id w.op_type w.key w.value

view-writes :
    (t : ℕ) (ws before : List RecoveredWrite) (more : List RecordData)
    → view t (running before) (map (write_record t) ws ++ more)
      ≡ view t (running (before ++ ws)) more
unfolding view
view-writes t [] before more = rw append-nil
view-writes t (w ∷ ws) before more =
    ground (arith, view-writes t ws (before ++ (w ∷ [])) more, append_assoc before (w ∷ []) ws)

view-begin :
    (t : ℕ) (v : View) (ws : List RecoveredWrite) (more : List RecordData)
    → view t v (begin t ∷ (map (write_record t) ws ++ more)) ≡ view t (running ws) more
unfolding view
view-begin t v ws more = ground (arith, view-writes t ws [] more)

-- In a log that is processed to its end, a transaction whose own records are its begin, the writes
-- `ws` and its commit is recovered as committed, with just these writes in their order, however the
-- records of other transactions lie between them.
pub committed_writes_lem :
    (t : ℕ) (ws : List RecoveredWrite) (rs : List RecordData) (s : WalRecovery)
    → process_all new rs ≡ ok s
    → own t rs ≡ begin t ∷ (map (write_record t) ws ++ (commit t ∷ []))
    → (state_of t s ≡ some committed) × (writes_of t s ≡ some ws)
unfolding view
committed_writes_lem t ws rs s e o =
    let final : view t unknown rs ≡ done ws =
      view-own t unknown rs
      ∙ ap (view t unknown) o
      ∙ view-begin t unknown ws (commit t ∷ [])
      ∙ ground arith in
    rw final at (process_all-view t rs s e)

-- In a log that is processed to its end, a transaction whose own records are its begin, the writes
-- `ws`, the prepare record and the commit is recovered as committed with no writes at all.
pub prepared_writes_lost :
    (t : ℕ) (ws : List RecoveredWrite) (rs : List RecordData) (s : WalRecovery)
    → process_all new rs ≡ ok s
    → own t rs ≡ begin t ∷ (map (write_record t) ws ++ (prepare t ∷ commit t ∷ []))
    → (state_of t s ≡ some committed) × (writes_of t s ≡ some [])
unfolding view
prepared_writes_lost t ws rs s e o =
    let final : view t unknown rs ≡ done [] =
      view-own t unknown rs
      ∙ ap (view t unknown) o
      ∙ view-begin t unknown ws (prepare t ∷ commit t ∷ [])
      ∙ ground arith in
    rw final at (process_all-view t rs s e)
