-- ===== src/Table/Bloom/Tombstones/Hidden.antt =====
-- Which keys the tombstones hide from a snapshot (src/table/bloom/tombstone.rs).
use nanostore.Prelude.{
  ℕ, ◌+◌, ◌≤◌, ◌≡◌, refl, ap, sym, ◌∙◌, Bool, true, false, ◌&&◌, ◌||◌, Option, none, some, [], ◌∷◌,
  length, ◌==◌, leb, ltb, arith, ==_iff, inl, inr, Bool-cases,
}
use nanostore.Prelude.Bytes.{Bytes, bytes_eq, bytes_eq_sound}
use nanostore.Snap.{Snapshot}
use nanostore.Table.Bloom.Tombstones.{
  BloomTombstone, BloomTombstoneSet, is_visible, tombstone_eq, lsn_eq, has, insert_tombstone,
  is_tombstoned, commit_if, commit_all, commit_tombstones, keeps, retain, vacuum,
}

-- Whether the transaction left a tombstone of the key uncommitted.
abbrev pub pending : BloomTombstoneSet → ℕ → Bytes → Bool
pending [] tx_id key = false
pending (t ∷ ts) tx_id key =
    (bytes_eq t.key key
      && (elim t.tombstone_lsn [ none ↦ t.tombstone_tx_id == tx_id | some _ ↦ false ]))
    || pending ts tx_id key

abbrev hides : Bytes → Snapshot → BloomTombstone → Bool
hides key s t = bytes_eq t.key key && is_visible t s

eq_lsn :
    (a b : Option ℕ) (s : Snapshot)
    → lsn_eq a b ≡ true
    → (elim a [ none ↦ false | some lsn ↦ leb lsn s.lsn ])
      ≡ (elim b [ none ↦ false | some lsn ↦ leb lsn s.lsn ])
eq_lsn none none s h = refl
eq_lsn none (some b) s h = cc
eq_lsn (some a) none s h = cc
eq_lsn (some a) (some b) s h = ap (λ n. leb n s.lsn) ((==_iff a b).0 h)

eq_hides :
    (key : Bytes) (s : Snapshot) (t u : BloomTombstone)
    → tombstone_eq t u ≡ true
    → hides key s t ≡ hides key s u
unfolding tombstone_eq is_visible
eq_hides key s t u h =
    let k = bytes_eq_sound t.key u.key (ground arith) in
    let l = eq_lsn t.tombstone_lsn u.tombstone_lsn s (ground arith) in
    ground (arith, ap (λ x. bytes_eq x key) k, l)

has-hides :
    (us : BloomTombstoneSet) (t : BloomTombstone) (key : Bytes) (s : Snapshot)
    → has us t ≡ true
    → (hides key s t || is_tombstoned us key s) ≡ is_tombstoned us key s
unfolding has is_tombstoned
has-hides [] t key s h = cc
has-hides (u ∷ us) t key s h = ground (arith, eq_hides key s u t, has-hides us t key s)

is_tombstoned-insert :
    (us : BloomTombstoneSet) (t : BloomTombstone) (key : Bytes) (s : Snapshot)
    → is_tombstoned (insert_tombstone us t) key s ≡ (hides key s t || is_tombstoned us key s)
unfolding insert_tombstone is_tombstoned
is_tombstoned-insert us t key s = elim (Bool-cases (has us t)) [
  | inl h ↦ rw h (sym (has-hides us t key s h))
  | inr h ↦ rw h refl
]

commit_if-fields :
    (k : Bytes) (u : ℕ) (o : Option ℕ) (tx_id lsn : ℕ) (key : Bytes) (s : Snapshot)
    → let t : BloomTombstone = record { key = k; tombstone_tx_id = u; tombstone_lsn = o } in
      hides key s (commit_if tx_id lsn t)
      ≡ (hides key s t || (pending (t ∷ []) tx_id key && leb lsn s.lsn))
unfolding commit_if is_visible
commit_if-fields k u none tx_id lsn key s = ground arith
commit_if-fields k u (some n) tx_id lsn key s = ground arith

hides-commit_if :
    (t : BloomTombstone) (tx_id lsn : ℕ) (key : Bytes) (s : Snapshot)
    → hides key s (commit_if tx_id lsn t)
      ≡ (hides key s t || (pending (t ∷ []) tx_id key && leb lsn s.lsn))
hides-commit_if t tx_id lsn key s =
    commit_if-fields t.key t.tombstone_tx_id t.tombstone_lsn tx_id lsn key s

none_left : (a : Bool) → a ≡ (a || false || false)
none_left true = refl
none_left false = refl

regroup :
    (a h q r p l : Bool)
    → (((h || ((q || false) && l)) || a) || r || (p && l)) ≡ (a || (h || r) || ((q || p) && l))
regroup a h q r p l = ground arith

commit_all_lem :
    (ts us : BloomTombstoneSet) (tx_id lsn : ℕ) (key : Bytes) (s : Snapshot)
    → is_tombstoned (commit_all ts us tx_id lsn) key s ≡ (
        is_tombstoned us key s || is_tombstoned ts key s || (pending ts tx_id key && leb lsn s.lsn))
unfolding commit_all is_tombstoned
commit_all_lem [] us tx_id lsn key s = none_left (is_tombstoned us key s)
commit_all_lem (t ∷ ts) us tx_id lsn key s =
    commit_all_lem ts (insert_tombstone us (commit_if tx_id lsn t)) tx_id lsn key s
    ∙ rw (is_tombstoned-insert us (commit_if tx_id lsn t) key s, hides-commit_if t tx_id lsn key s)
        (regroup (is_tombstoned us key s) (hides key s t) _ (is_tombstoned ts key s) _
          (leb lsn s.lsn))

-- Once the tombstones of a transaction are committed at `lsn`, a key is hidden from a snapshot exactly
-- if it was before, or the transaction had an uncommitted tombstone of it and `lsn` is no later than the snapshot.
pub commit_tombstones_lem :
    (us : BloomTombstoneSet) (tx_id lsn : ℕ) (key : Bytes) (s : Snapshot)
    → is_tombstoned (commit_tombstones us tx_id lsn) key s
      ≡ (is_tombstoned us key s || (pending us tx_id key && leb lsn s.lsn))
unfolding commit_tombstones is_tombstoned
commit_tombstones_lem us tx_id lsn key s = commit_all_lem us [] tx_id lsn key s

module _ (min_visible_lsn : ℕ) where
  length-retain : (us : BloomTombstoneSet) → length (retain min_visible_lsn us) ≤ length us
  unfolding retain
  length-retain [] = omega arith
  length-retain (t ∷ ts) = ground (arith, length-retain ts)

  keeps_hides :
      (o : Option ℕ) (s : Snapshot)
      → s.lsn ≤ min_visible_lsn
      → ((elim o [ none ↦ true | some lsn ↦ ltb min_visible_lsn lsn ])
          && (elim o [ none ↦ false | some lsn ↦ leb lsn s.lsn ]))
        ≡ false
  keeps_hides none s h = refl
  keeps_hides (some lsn) s h = ground arith

  retain-reveals :
      (us : BloomTombstoneSet) (key : Bytes) (s : Snapshot)
      → s.lsn ≤ min_visible_lsn
      → is_tombstoned (retain min_visible_lsn us) key s ≡ false
  unfolding retain is_tombstoned is_visible keeps
  retain-reveals [] key s h = refl
  retain-reveals (t ∷ ts) key s h =
      ground (arith, keeps_hides t.tombstone_lsn s h, retain-reveals ts key s h)

  -- A vacuum counts the tombstones that it removes, and leaves none that hides a key from a
  -- snapshot taken at or before its bound: to such a snapshot a rolled-back key is back.
  pub vacuum_reveals :
      (us : BloomTombstoneSet) (key : Bytes) (s : Snapshot)
      → s.lsn ≤ min_visible_lsn
      → ((vacuum us min_visible_lsn).0 + length (vacuum us min_visible_lsn).1 ≡ length us)
        × (is_tombstoned (vacuum us min_visible_lsn).1 key s ≡ false)
  unfolding vacuum
  vacuum_reveals us key s h = (omega (arith, length-retain us), retain-reveals us key s h)
