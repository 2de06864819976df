-- ===== src/Wal/Writer/Recover.antt =====
-- Recovery (src/wal/recovery.rs) of a log that the writer (src/wal/writer.rs) wrote.
use mathlib.Core.Path.{subst}
use mathlib.Core.List.{map-append}
use nanostore.Prelude.{
  ℕ, ◌≡◌, refl, sym, ap, ◌∙◌, Bool, true, false, ◌&&◌, List, [], ◌∷◌, ◌++◌, map, inl, inr, arith,
  ℕ_discrete, Bool-cases, ◌⊎◌,
}
use nanostore.Prelude.Members.{member, In, member_of_In}
use nanostore.Vfs.{FileOps, IsFile}
use nanostore.Wal.Record.{RecordData, begin, write, commit, rollback, checkpoint, prepare}
use nanostore.Wal.Record.Frame.{Crates, WalRecord}
use nanostore.Wal.Reader.{track, scan}
use nanostore.Wal.Recovery.{
  WalRecovery, RecoveryResult, ok, new, process_record, process_all, build_result, recover,
  RecoveredWrite,
}
use nanostore.Wal.Recovery.View.{
  View, unknown, running, begun, wrote, ended, dropped, step, view, Shows, process_all-view,
  view-append, process_all-append,
}
use nanostore.Wal.Recovery.Panics.{
  verdict, OwnView, process_record-verdict, kind-ok, verdict-running, verdict-Starts,
}
use nanostore.Wal.Recovery.Result.{is_running, running_of, recover-views}
use nanostore.Wal.Writer.{WalWriterConfig, WalWriter, new_record}
use nanostore.Wal.Writer.Calls.{content_of}
use nanostore.Wal.Writer.Active.{
  Same, member-insert_txn, member-remove_txn, extend-Same, scan-append,
}
use nanostore.Wal.Writer.Guards.{Allowed, call-Allowed}
use nanostore.Wal.Writer.Log.{Written, created, accepted, refused, flushed, Written-IsLog}

is_running-wrote : (w : RecoveredWrite) (v : View) → is_running (wrote w v) ≡ is_running v
unfolding is_running wrote
is_running-wrote w unknown = refl
is_running-wrote w _ = refl

is_running-ended : (v : View) → is_running (ended v) ≡ false
unfolding is_running ended
is_running-ended unknown = refl
is_running-ended _ = refl

is_running-dropped : (v : View) → is_running (dropped v) ≡ false
unfolding is_running dropped
is_running-dropped unknown = refl
is_running-dropped _ = refl

is_running-begun : (v : View) → is_running (begun v) ≡ true
unfolding is_running begun
is_running-begun v = refl

-- An active transaction is a member under its other name.
same_member : (t u : ℕ) (us : List ℕ) (b : Bool) → u ≡ t → member u us ≡ b → member t us ≡ b
same_member t u us b p a = subst (λ x. member x us ≡ b) p a

-- One record keeps the running transactions of recovery and the active ones of the log the same.
step-track :
    (t : ℕ) (c : RecordData) (v : View) (us : List ℕ)
    → is_running v ≡ member t us
    → Allowed us c
    → is_running (step t c v) ≡ member t (track us c)
unfolding step track
step-track t (begin u) v us h a = ground (arith, is_running-begun v, member-insert_txn t u us, h)
step-track t (prepare u) v us h a = ground (arith, is_running-begun v, h, same_member t u us true)
step-track t (write u table_id op_type key value) v us h a =
    let w : RecoveredWrite = record {
      table_id = table_id;
      op_type = op_type;
      key = key;
      value = value;
    } in
    ground (arith, is_running-wrote w v, h)
step-track t (commit u) v us h a = ground (arith, is_running-ended v, member-remove_txn t u us, h)
step-track t (rollback u) v us h a =
    ground (arith, is_running-dropped v, member-remove_txn t u us, h)
step-track t (checkpoint lsn active_txns) v us h a = h ∙ sym (a t) ∙ extend-Same active_txns t

running_lem : (v : View) → is_running v ≡ true → (ws : List RecoveredWrite) × (v ≡ running ws)
unfolding is_running
running_lem (running ws) h = (ws, refl)
running_lem _ h = absurd (ground arith)

-- What recovery holds agrees with the active transactions `us`.
record Agrees (s : WalRecovery) (f : ℕ → View) (us : List ℕ) : Type 0 where
  shows : (t : ℕ) → Shows t s (f t)
  follows : (t : ℕ) → is_running (f t) ≡ member t us

-- The record of an active transaction is processed.
process_active :
    (s : WalRecovery) (c : RecordData) (v : View)
    → OwnView c s v
    → is_running v ≡ true
    → (s₁ : WalRecovery) × (process_record s c ≡ ok s₁)
process_active s c v own r =
    let (ws, e) = running_lem v r in
    kind-ok _ (process_record-verdict s c v own ∙ ap (verdict c) e ∙ verdict-running c ws)

process-Allowed :
    (s : WalRecovery) (c : RecordData) (f : ℕ → View) (us : List ℕ)
    → Agrees s f us
    → Allowed us c
    → (s₁ : WalRecovery) × (process_record s c ≡ ok s₁)
process-Allowed s (begin u) f us g a =
    kind-ok _
      (process_record-verdict s (begin u) (f u) (g.shows u) ∙ verdict-Starts (begin u) (f u) tt)
process-Allowed s (prepare u) f us g a =
    kind-ok _
      (process_record-verdict s (prepare u) (f u) (g.shows u) ∙ verdict-Starts (prepare u) (f u) tt)
process-Allowed s (checkpoint lsn active_txns) f us g a = kind-ok _ (
    process_record-verdict s (checkpoint lsn active_txns) unknown tt
    ∙ verdict-Starts (checkpoint lsn active_txns) unknown tt)
process-Allowed s (write u table_id op_type key value) f us g a =
    process_active s (write u table_id op_type key value) (f u) (g.shows u) (g.follows u ∙ a)
process-Allowed s (commit u) f us g a =
    process_active s (commit u) (f u) (g.shows u) (g.follows u ∙ a)
process-Allowed s (rollback u) f us g a =
    process_active s (rollback u) (f u) (g.shows u) (g.follows u ∙ a)

abbrev pub contents : List WalRecord → List RecordData
contents rs = map (λ (r : WalRecord). r.content) rs

-- The recovery of these records succeeds, and agrees with what a scan of them finds active.
Recovers : List WalRecord → Type 0
Recovers rs =
    (s : WalRecovery) × (process_all new (contents rs) ≡ ok s)
    × ((t : ℕ) → is_running (view t unknown (contents rs)) ≡ member t (scan (0, []) rs).1)

Recovers-append :
    (rs : List WalRecord) (r : WalRecord)
    → Recovers rs
    → Allowed (scan (0, []) rs).1 r.content
    → Recovers (rs ++ (r ∷ []))
unfolding Recovers process_all view
Recovers-append rs r (s, e, follows) a =
    let cs = contents rs in
    let us = (scan (0, []) rs).1 in
    let split : contents (rs ++ (r ∷ [])) ≡ cs ++ (r.content ∷ []) = map-append _ rs (r ∷ []) in
    let (s₁, p) =
      process-Allowed s r.content (λ t. view t unknown cs) us
        (record { shows = λ t. process_all-view t cs s e; follows = follows }) a in
    (
      s₁,
      ap (process_all new) split ∙ process_all-append new cs (r.content ∷ []) ∙ rw (e, p) refl,
      λ t.
          ap (λ x. is_running (view t unknown x)) split
          ∙ ap is_running (view-append t unknown cs (r.content ∷ []))
          ∙ step-track t r.content (view t unknown cs) us (follows t) a
          ∙ ap (λ st. member t st.1) (sym (scan-append (0, []) rs r)),
    )

Allowed-Same : (c : RecordData) (us vs : List ℕ) → Same us vs → Allowed us c → Allowed vs c
Allowed-Same (begin t) us vs same a = sym (same t) ∙ a
Allowed-Same (write t table_id op_type key value) us vs same a = sym (same t) ∙ a
Allowed-Same (commit t) us vs same a = sym (same t) ∙ a
Allowed-Same (rollback t) us vs same a = sym (same t) ∙ a
Allowed-Same (prepare t) us vs same a = sym (same t) ∙ a
Allowed-Same (checkpoint lsn active_txns) us vs same a = λ t. a t ∙ same t

member-running_of :
    (t : ℕ) (f : ℕ → View) (ids : List ℕ)
    → member t (running_of f ids) ≡ (member t ids && is_running (f t))
unfolding running_of
member-running_of t f [] = refl
member-running_of t f (i ∷ ids) = elim (ℕ_discrete i t) [
  | yes p ↦
      subst (λ u. member u (running_of f (i ∷ ids)) ≡ (member u (i ∷ ids) && is_running (f u))) p
        (elim (Bool-cases (is_running (f i))) [
          | inl on ↦ rw on (ground arith)
          | inr off ↦ rw off (ground (arith, member-running_of i f ids, off))
        ])
  | no n ↦ elim (Bool-cases (is_running (f i))) [
    | inl on ↦ rw on (ground (arith, member-running_of t f ids))
    | inr off ↦ rw off (ground (arith, member-running_of t f ids))
  ]
]

-- A transaction outside the list has an unknown view, which is not running.
counted :
    (t : ℕ) (v : View) (ids : List ℕ)
    → (v ≡ unknown) ⊎ In t ids
    → (member t ids && is_running v) ≡ is_running v
unfolding is_running
counted t v ids (inl e) = rw e (ground arith)
counted t v ids (inr i) = ground (arith, member_of_In t ids i)

module _ {ops : FileOps} (file : IsFile ops) (lib : Crates) (config : WalWriterConfig) where
  Written-Recovers :
      (w : WalWriter ops) (rs : List WalRecord) → Written file lib config w rs → Recovers rs
  unfolding Recovers process_all view scan is_running
  Written-Recovers w rs (created h e end) = (new, refl, λ t. refl)
  Written-Recovers w rs (accepted {w = w₀} {rs = rs₀} c draw lsn before fits e) =
      let l = Written-IsLog file lib config w₀ rs₀ before in
      Recovers-append rs₀ (new_record config w₀ (content_of w₀ c) draw)
        (Written-Recovers w₀ rs₀ before)
        (Allowed-Same (content_of w₀ c) w₀.active_txns (scan (0, []) rs₀).1 l.active
          (call-Allowed lib config w₀ w c draw lsn e))
  Written-Recovers w rs (refused {w = w₀} c draw failure before e other) =
      Written-Recovers w₀ rs before
  Written-Recovers w rs (flushed {w = w₀} before e) = Written-Recovers w₀ rs before

  -- The recovery of the records that any sequence of calls wrote succeeds, without an error and
  -- without a panic, where no operation on the file failed and the fields of the records fit; and the
  -- transactions that it reports as active are just those that the writer holds active.
  pub recover-Written :
      (w : WalWriter ops) (rs : List WalRecord)
      → Written file lib config w rs
      → (result : RecoveryResult) × (recover (contents rs) ≡ ok result)
        × ((t : ℕ) → member t result.active_transactions ≡ member t w.active_txns)
  unfolding Recovers recover
  recover-Written w rs written =
      let l = Written-IsLog file lib config w rs written in
      let (s, e, follows) = Written-Recovers w rs written in
      let recovered : recover (contents rs) ≡ ok (build_result s) = rw e refl in
      let (ids, order, known, kept, actives) =
        recover-views (contents rs) (build_result s) recovered in
      (
        build_result s,
        recovered,
        λ t.
            ap (member t) actives
            ∙ member-running_of t (λ u. view u unknown (contents rs)) ids
            ∙ counted t (view t unknown (contents rs)) ids (known t)
            ∙ follows t
            ∙ sym (l.active t),
      )
