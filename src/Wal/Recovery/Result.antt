-- ===== src/Wal/Recovery/Result.antt =====
-- What `build_result` (src/wal/recovery.rs) makes of the two maps.
use mathlib.Core.Path.{subst}
use nanostore.Prelude.{
  ℕ, suc, ◌≤◌, ◌<◌, ◌≡◌, refl, ◌∙◌, ap, sym, ◌≢◌, ◌⊎◌, inl, inr, none, some, List, [], ◌∷◌, ◌++◌,
  arith, ℕ_discrete, if◌then◌else◌, Bool, true, false,
}
use nanostore.Prelude.Members.{In}
use nanostore.Prelude.Maps.{get, insert_sorted-Ascends, Ascends}
use nanostore.Wal.Record.{RecordData, begin, write, commit, rollback, checkpoint, prepare}
use nanostore.Wal.Recovery.{
  TransactionState, active, committed, rolled_back, WalRecovery, RecoveryResult, ok, >>=-eq-ok,
  ok-injective, new, process_record, process_all, RecoveredWrite, state_of, writes_of,
  collect_writes, collect_active, recover,
}
use nanostore.Wal.Recovery.View.{
  View, unknown, running, done, undone, emptied, Shows, view, process_all-view,
}

-- What is restored of a transaction.
unfoldable pub kept : View → List RecoveredWrite
kept (done ws) = ws
kept _ = []

unfoldable pub is_running : View → Bool
is_running (running ws) = true
is_running _ = false

-- The restored writes, and the running transactions, of the transactions in `ids`.
unfoldable pub kept_of : (ℕ → View) → List ℕ → List RecoveredWrite
unfolding kept
kept_of f [] = []
kept_of f (t ∷ ts) = kept (f t) ++ kept_of f ts

unfoldable pub running_of : (ℕ → View) → List ℕ → List ℕ
unfolding is_running
running_of f [] = []
running_of f (t ∷ ts) = if is_running (f t) then t ∷ running_of f ts else running_of f ts

-- Numbers from `b` on, in ascending order.
abbrev pub IsAscending : ℕ → List ℕ → Type 0
IsAscending b [] = Unit
IsAscending b (t ∷ ts) = (b ≤ t) × IsAscending (suc t) ts

abbrev keys : {V : Type 0} → List (ℕ × V) → List ℕ
keys [] = []
keys ((t, v) ∷ m) = t ∷ keys m

keys-IsAscending : {V : Type 0} (b : ℕ) (m : List (ℕ × V)) → Ascends b m → IsAscending b (keys m)
keys-IsAscending b [] h = tt
keys-IsAscending b ((t, v) ∷ m) h = (h.0, keys-IsAscending (suc t) m h.1)

In-keys :
    {V : Type 0} (t : ℕ) (v : V) (m : List (ℕ × V)) → get ℕ_discrete t m ≡ some v → In t (keys m)
unfolding get
In-keys t v [] h = ground arith
In-keys t v ((u, w) ∷ m) h = elim (ℕ_discrete u t) [
  | yes p ↦ inl p
  | no n ↦ inr (In-keys t v m (ground arith))
]

-- Every entry of `m` is found in `full`.
abbrev AllGet : {V : Type 0} → List (ℕ × V) → List (ℕ × V) → Type 0
AllGet full [] = Unit
AllGet full ((t, v) ∷ m) = (get ℕ_discrete t full ≡ some v) × AllGet full m

get-below :
    {V : Type 0} (u : ℕ) (w : V) (b : ℕ) (full m : List (ℕ × V))
    → u < b
    → Ascends b m
    → AllGet full m
    → AllGet ((u, w) ∷ full) m
unfolding get
get-below u w b full [] h a g = tt
get-below u w b full ((t, v) ∷ m) h a g =
    (ground arith, get-below u w (suc t) full m (omega arith) a.1 g.1)

Ascends-AllGet : {V : Type 0} (b : ℕ) (m : List (ℕ × V)) → Ascends b m → AllGet m m
unfolding get
Ascends-AllGet b [] a = tt
Ascends-AllGet b ((t, v) ∷ m) a =
    (ground arith, get-below t v (suc t) m m (omega arith) a.1 (Ascends-AllGet (suc t) m a.1))

-- The entry of a transaction, and what is collected for it.
module _ (s : WalRecovery) (f : ℕ → View) (shows : (t : ℕ) → Shows t s (f t)) where
  kept_of_committed :
      (t : ℕ) (v : View)
      → Shows t s v
      → state_of t s ≡ some committed
      → (writes_of t s ≡ some (kept v)) ⊎ ((writes_of t s ≡ none) × (kept v ≡ []))
  unfolding kept
  kept_of_committed t (done ws) h e = inl h.1
  kept_of_committed t emptied h e = inr (h.1, refl)
  kept_of_committed t unknown h e = absurd (ground arith)
  kept_of_committed t (running ws) h e = absurd (ground arith)
  kept_of_committed t undone h e = absurd (ground arith)

  kept_of_not_committed :
      (t : ℕ) (v : View) → Shows t s v → state_of t s ≢ some committed → kept v ≡ []
  unfolding kept
  kept_of_not_committed t (done ws) h n = absurd (n h.0)
  kept_of_not_committed t _ h n = refl

  is_running_of_active :
      (t : ℕ) (v : View) → Shows t s v → state_of t s ≡ some active → is_running v ≡ true
  unfolding is_running
  is_running_of_active t (running ws) h e = refl
  is_running_of_active t _ h e = absurd (ground arith)

  is_running_of_not_active :
      (t : ℕ) (v : View) → Shows t s v → state_of t s ≢ some active → is_running v ≡ false
  unfolding is_running
  is_running_of_not_active t (running ws) h n = absurd (n h.0)
  is_running_of_not_active t _ h n = refl

  collect_writes-kept_of :
      (m : List (ℕ × TransactionState))
      → AllGet s.transactions m
      → collect_writes s.transaction_writes m ≡ kept_of f (keys m)
  unfolding collect_writes kept_of
  collect_writes-kept_of [] h = refl
  collect_writes-kept_of ((t, committed) ∷ m) h =
      ground (arith, kept_of_committed t (f t) (shows t) h.0, collect_writes-kept_of m h.1)
  collect_writes-kept_of ((t, active) ∷ m) h =
      rw (kept_of_not_committed t (f t) (shows t) (ground (arith, h.0)))
        (collect_writes-kept_of m h.1)
  collect_writes-kept_of ((t, rolled_back) ∷ m) h =
      rw (kept_of_not_committed t (f t) (shows t) (ground (arith, h.0)))
        (collect_writes-kept_of m h.1)

  collect_active-running_of :
      (m : List (ℕ × TransactionState))
      → AllGet s.transactions m
      → collect_active m ≡ running_of f (keys m)
  unfolding collect_active running_of
  collect_active-running_of [] h = refl
  collect_active-running_of ((t, active) ∷ m) h =
      rw (is_running_of_active t (f t) (shows t) h.0) (ap (◌∷◌ t) (collect_active-running_of m h.1))
  collect_active-running_of ((t, committed) ∷ m) h =
      rw (is_running_of_not_active t (f t) (shows t) (ground (arith, h.0)))
        (collect_active-running_of m h.1)
  collect_active-running_of ((t, rolled_back) ∷ m) h =
      rw (is_running_of_not_active t (f t) (shows t) (ground (arith, h.0)))
        (collect_active-running_of m h.1)

-- The transactions stay in the order of their identifiers.
abbrev InOrder : WalRecovery → Type 0
InOrder s = Ascends 0 s.transactions

process_record-InOrder :
    (s s' : WalRecovery) (r : RecordData) → InOrder s → process_record s r ≡ ok s' → InOrder s'
unfolding process_record
process_record-InOrder s s' (begin t) h e =
    ground (arith, insert_sorted-Ascends 0 t active s.transactions)
process_record-InOrder s s' (prepare t) h e =
    ground (arith, insert_sorted-Ascends 0 t active s.transactions)
process_record-InOrder s s' (commit t) h e =
    ground (arith, insert_sorted-Ascends 0 t committed s.transactions)
process_record-InOrder s s' (rollback t) h e =
    ground (arith, insert_sorted-Ascends 0 t rolled_back s.transactions)
process_record-InOrder s s' (write t table_id op key value) h e = ground arith
process_record-InOrder s s' (checkpoint lsn active_txns) h e = ground arith

process_all-InOrder :
    (rs : List RecordData) (s s' : WalRecovery) → InOrder s → process_all s rs ≡ ok s' → InOrder s'
unfolding process_all
process_all-InOrder [] s s' h e = let p : s ≡ s' = cc in subst InOrder p h
process_all-InOrder (r ∷ rs) s s' h e =
    let (s₁, first, rest) = >>=-eq-ok (process_record s r) _ e in
    process_all-InOrder rs s₁ s' (process_record-InOrder s s₁ r h first) rest

known_state :
    (t : ℕ) (s : WalRecovery) (v : View)
    → Shows t s v
    → (v ≡ unknown) ⊎ ((x : TransactionState) × (state_of t s ≡ some x))
known_state t s unknown h = inl refl
known_state t s (running ws) h = inr (active, h.0)
known_state t s (done ws) h = inr (committed, h.0)
known_state t s undone h = inr (rolled_back, h.0)
known_state t s emptied h = inr (committed, h.0)

-- A recovery that returns a result went over an ascending list of transactions in which every
-- transaction that the log begins stands; it restores the writes of those that ended committed, one
-- transaction after the other in the order of their identifiers, and reports those that were still
-- running.
pub recover-views :
    (rs : List RecordData) (r : RecoveryResult)
    → recover rs ≡ ok r
    → (ids : List ℕ) × IsAscending 0 ids
      × ((t : ℕ) → (view t unknown rs ≡ unknown) ⊎ In t ids)
      × (r.committed_writes ≡ kept_of (λ t. view t unknown rs) ids)
      × (r.active_transactions ≡ running_of (λ t. view t unknown rs) ids)
unfolding recover
recover-views rs r e =
    let (s, processed, built) = >>=-eq-ok (process_all new rs) _ e in
    let same = ok-injective built in
    let order = process_all-InOrder rs new s tt processed in
    let found = Ascends-AllGet 0 s.transactions order in
    let shows : (t : ℕ) → Shows t s (view t unknown rs) = λ t. process_all-view t rs s processed in
    let writes = collect_writes-kept_of s (λ t. view t unknown rs) shows s.transactions found in
    let actives = collect_active-running_of s (λ t. view t unknown rs) shows s.transactions found in
    (
      keys s.transactions,
      keys-IsAscending 0 s.transactions order,
      (λ t. elim (known_state t s (view t unknown rs) (shows t)) [
        | inl e ↦ inl e
        | inr (x, p) ↦ inr (In-keys t x s.transactions p)
      ]),
      ap (λ (x : RecoveryResult). x.committed_writes) (sym same) ∙ writes,
      ap (λ (x : RecoveryResult). x.active_transactions) (sym same) ∙ actives,
    )
