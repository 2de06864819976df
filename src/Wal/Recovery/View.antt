-- ===== src/Wal/Recovery/View.antt =====
-- What recovery (src/wal/recovery.rs) knows of one transaction, as a machine of its own.
use mathlib.Core.Logic.{ite}
use mathlib.Core.Path.{subst, fun_ext, ap, ◌∙◌}
use nanostore.Prelude.{
  ℕ, ◌≡◌, refl, inl, inr, none, some, List, [], ◌∷◌, ◌++◌, arith, ℕ_discrete, Option-cases, ◌≢◌,
  ◌+◌,
}
use nanostore.Prelude.Maps.{get, get-insert_sorted, get-remove, insert_sorted, remove}
use nanostore.Wal.Record.{RecordData, begin, write, commit, rollback, checkpoint, prepare}
use nanostore.Wal.Recovery.{
  TransactionState, active, committed, rolled_back, RecoveredWrite, WalRecovery, Outcome, ok, ◌>>=◌,
  new, process_begin, process_write, process_commit, process_rollback, process_checkpoint,
  >>=-eq-ok, bind_assoc, state_of, writes_of, dispatch, process_record, process_all,
}

-- A transaction as recovery sees it: not in the log, active or committed with the writes that are
-- kept, rolled back, or committed after it was rolled back.
pub data View : Type 0 where
  unknown : View
  running : List RecoveredWrite → View
  done : List RecoveredWrite → View
  undone : View
  emptied : View

-- A record of the transaction itself.
unfoldable pub begun : View → View
begun v = running []

unfoldable pub wrote : RecoveredWrite → View → View
wrote w unknown = unknown
wrote w (running ws) = running (ws ++ (w ∷ []))
wrote w (done ws) = done (ws ++ (w ∷ []))
wrote w undone = undone
wrote w emptied = emptied

unfoldable pub ended : View → View
ended unknown = unknown
ended (running ws) = done ws
ended (done ws) = done ws
ended undone = emptied
ended emptied = emptied

unfoldable pub dropped : View → View
dropped unknown = unknown
dropped v = undone

-- The effect of one record on the view of transaction `t`.
unfoldable pub step : ℕ → RecordData → View → View
unfolding begun wrote ended dropped
step t (begin u) v = ite (ℕ_discrete u t) (begun v) v
step t (prepare u) v = ite (ℕ_discrete u t) (begun v) v
step t (write u table_id op key value) v =
    ite (ℕ_discrete u t)
      (wrote (record { table_id = table_id; op_type = op; key = key; value = value }) v) v
step t (commit u) v = ite (ℕ_discrete u t) (ended v) v
step t (rollback u) v = ite (ℕ_discrete u t) (dropped v) v
step t (checkpoint lsn active_txns) v = v

unfoldable pub view : ℕ → View → List RecordData → View
unfolding step
view t v [] = v
view t v (r ∷ rs) = view t (step t r v) rs

-- The two maps hold just what the view says.
abbrev pub Shows : ℕ → WalRecovery → View → Type 0
Shows t s unknown = (state_of t s ≡ none) × (writes_of t s ≡ none)
Shows t s (running ws) = (state_of t s ≡ some active) × (writes_of t s ≡ some ws)
Shows t s (done ws) = (state_of t s ≡ some committed) × (writes_of t s ≡ some ws)
Shows t s undone = (state_of t s ≡ some rolled_back) × (writes_of t s ≡ none)
Shows t s emptied = (state_of t s ≡ some committed) × (writes_of t s ≡ none)

-- The maps after `transactions.insert` and `transaction_writes.insert` of the transaction `u`.
module _ (t u : ℕ) (s : WalRecovery) where
  state_of-insert :
      (state : TransactionState)
      → get ℕ_discrete t (insert_sorted u state s.transactions)
        ≡ ite (ℕ_discrete u t) (some state) (state_of t s)
  state_of-insert state = get-insert_sorted t u state s.transactions

  writes_of-insert :
      (ws : List RecoveredWrite)
      → get ℕ_discrete t (insert_sorted u ws s.transaction_writes)
        ≡ ite (ℕ_discrete u t) (some ws) (writes_of t s)
  writes_of-insert ws = get-insert_sorted t u ws s.transaction_writes

  writes_of-remove :
      get ℕ_discrete t (remove ℕ_discrete u s.transaction_writes)
      ≡ ite (ℕ_discrete u t) none (writes_of t s)
  writes_of-remove = get-remove ℕ_discrete t u s.transaction_writes

-- The begin of another transaction, or of this one.
begin-Shows :
    (t u : ℕ) (s s' : WalRecovery) (v : View)
    → Shows t s v
    → process_begin s u ≡ ok s'
    → Shows t s' (ite (ℕ_discrete u t) (begun v) v)
unfolding process_begin begun
begin-Shows t u s s' unknown h e =
    ground (arith, state_of-insert t u s active, writes_of-insert t u s [])
begin-Shows t u s s' _ h e = ground (arith, state_of-insert t u s active, writes_of-insert t u s [])

write-Shows_of_some :
    (t u : ℕ) (w : RecoveredWrite) (ws : List RecoveredWrite) (s s' : WalRecovery) (v : View)
    → writes_of u s ≡ some ws
    → Shows t s v
    → process_write s u w ≡ ok s'
    → Shows t s' (ite (ℕ_discrete u t) (wrote w v) v)
unfolding process_write wrote
write-Shows_of_some t u w ws s s' unknown found h e =
    ground (arith, writes_of-insert t u s (ws ++ (w ∷ [])))
write-Shows_of_some t u w ws s s' _ found h e =
    ground (arith, writes_of-insert t u s (ws ++ (w ∷ [])))

write-panics :
    (u : ℕ) (w : RecoveredWrite) (s s' : WalRecovery)
    → writes_of u s ≡ none
    → process_write s u w ≢ ok s'
unfolding process_write
write-panics u w s s' missing = ground arith

write-Shows :
    (t u : ℕ) (w : RecoveredWrite) (s s' : WalRecovery) (v : View)
    → Shows t s v
    → process_write s u w ≡ ok s'
    → Shows t s' (ite (ℕ_discrete u t) (wrote w v) v)
write-Shows t u w s s' v h e = elim (Option-cases (writes_of u s)) [
  | inl missing ↦ absurd (write-panics u w s s' missing e)
  | inr (ws, found) ↦ write-Shows_of_some t u w ws s s' v found h e
]

commit-Shows :
    (t u : ℕ) (s s' : WalRecovery) (v : View)
    → Shows t s v
    → process_commit s u ≡ ok s'
    → Shows t s' (ite (ℕ_discrete u t) (ended v) v)
unfolding process_commit ended
commit-Shows t u s s' unknown h e = ground (arith, state_of-insert t u s committed)
commit-Shows t u s s' _ h e = ground (arith, state_of-insert t u s committed)

rollback-Shows :
    (t u : ℕ) (s s' : WalRecovery) (v : View)
    → Shows t s v
    → process_rollback s u ≡ ok s'
    → Shows t s' (ite (ℕ_discrete u t) (dropped v) v)
unfolding process_rollback dropped
rollback-Shows t u s s' unknown h e =
    ground (arith, state_of-insert t u s rolled_back, writes_of-remove t u s)
rollback-Shows t u s s' _ h e =
    ground (arith, state_of-insert t u s rolled_back, writes_of-remove t u s)

checkpoint-Shows :
    (t lsn : ℕ) (active_txns : List ℕ) (s s' : WalRecovery) (v : View)
    → Shows t s v
    → process_checkpoint s lsn active_txns ≡ ok s'
    → Shows t s' v
unfolding process_checkpoint
checkpoint-Shows t lsn active_txns s s' unknown h e = ground arith
checkpoint-Shows t lsn active_txns s s' _ h e = ground arith

-- The counter of records shows in no view.
Shows-counted :
    (t : ℕ) (s : WalRecovery) (v : View)
    → Shows t s v
    → Shows t (record s { records_processed = s.records_processed + 1 }) v
Shows-counted t s unknown h = h
Shows-counted t s _ h = h

-- A record that is processed changes each view as `step` says.
dispatch-Shows :
    (t : ℕ) (s s' : WalRecovery) (r : RecordData) (v : View)
    → Shows t s v
    → dispatch s r ≡ ok s'
    → Shows t s' (step t r v)
unfolding dispatch step
dispatch-Shows t s s' (begin u) v h e = begin-Shows t u s s' v h e
dispatch-Shows t s s' (prepare u) v h e = begin-Shows t u s s' v h e
dispatch-Shows t s s' (write u table_id op key value) v h e =
    write-Shows t u (record { table_id = table_id; op_type = op; key = key; value = value }) s s' v
      h e
dispatch-Shows t s s' (commit u) v h e = commit-Shows t u s s' v h e
dispatch-Shows t s s' (rollback u) v h e = rollback-Shows t u s s' v h e
dispatch-Shows t s s' (checkpoint lsn active_txns) v h e =
    checkpoint-Shows t lsn active_txns s s' v h e

pub process_record-Shows :
    (t : ℕ) (s s' : WalRecovery) (r : RecordData) (v : View)
    → Shows t s v
    → process_record s r ≡ ok s'
    → Shows t s' (step t r v)
unfolding process_record
process_record-Shows t s s' r v h e = dispatch-Shows t _ s' r v (Shows-counted t s v h) e

process_all-Shows :
    (t : ℕ) (rs : List RecordData) (s s' : WalRecovery) (v : View)
    → Shows t s v
    → process_all s rs ≡ ok s'
    → Shows t s' (view t v rs)
unfolding process_all view
process_all-Shows t [] s s' v h e = let p : s ≡ s' = cc in subst (λ x. Shows t x v) p h
process_all-Shows t (r ∷ rs) s s' v h e =
    let (s₁, first, rest) = >>=-eq-ok (process_record s r) _ e in
    process_all-Shows t rs s₁ s' (step t r v) (process_record-Shows t s s₁ r v h first) rest

new-Shows : (t : ℕ) → Shows t new unknown
unfolding get
new-Shows t = (refl, refl)

-- After a log that is processed to its end, what recovery holds of a transaction, its state and its
-- writes, is the result of that transaction's own records in their order: the records of other
-- transactions and the checkpoints among them change nothing of it.
pub process_all-view :
    (t : ℕ) (rs : List RecordData) (s : WalRecovery)
    → process_all new rs ≡ ok s
    → Shows t s (view t unknown rs)
process_all-view t rs s e = process_all-Shows t rs new s unknown (new-Shows t) e

pub view-append :
    (t : ℕ) (v : View) (rs more : List RecordData)
    → view t v (rs ++ more) ≡ view t (view t v rs) more
unfolding view
view-append t v [] more = refl
view-append t v (r ∷ rs) more = view-append t (step t r v) rs more

pub process_all-append :
    (s : WalRecovery) (rs more : List RecordData)
    → process_all s (rs ++ more) ≡ (process_all s rs >>= λ s'. process_all s' more)
unfolding process_all
process_all-append s [] more = refl
process_all-append s (r ∷ rs) more =
    ap (λ (f : WalRecovery → Outcome WalRecovery). process_record s r >>= f)
      (fun_ext (λ s'. process_all-append s' rs more))
    ∙ bind_assoc (process_record s r) (λ s'. process_all s' rs) (λ s'. process_all s' more)
