-- ===== src/Txn/Conflict/Locks.antt =====
-- Who holds a write lock of src/txn/conflict.rs, across any interleaving of transactions.
use mathlib.Core.Bool.{not}
use mathlib.Core.Path.{subst}
use nanostore.Prelude.{
  ℕ, ◌≡◌, refl, ◌≢◌, ◌⊎◌, inl, inr, none, some, List, [], ◌∷◌, ◌==◌, if◌then◌else◌, ℕ_discrete,
  arith, Option-cases,
}
use nanostore.Prelude.Maps.{IsMap, get-insert, get-retain, insert-IsMap, retain-IsMap}
use nanostore.Txn.Conflict.{
  LockKey, lock_key_discrete, TransactionResult, ok, err, write_write_conflict, read_write_conflict,
  ConflictDetector, holder, release_locks, check_read_write_conflicts, lock_for_write,
}

-- Each key is locked once.
abbrev pub IsValid : ConflictDetector → Type 0
IsValid d = IsMap lock_key_discrete d.write_locks

-- A call on the detector by one transaction.
pub data Call : Type 0 where
  lock : LockKey → ℕ → Call
  release : ℕ → Call

unfoldable pub after : ConflictDetector → Call → ConflictDetector
after d (lock k t) = (lock_for_write d k t).1
after d (release t) = release_locks d t

unfoldable pub after_all : ConflictDetector → List Call → ConflictDetector
unfolding after
after_all d [] = d
after_all d (c ∷ cs) = after_all (after d c) cs

pub after-IsValid : (d : ConflictDetector) (c : Call) → IsValid d → IsValid (after d c)
unfolding after lock_for_write release_locks
after-IsValid d (lock k t) h = ground (arith, insert-IsMap lock_key_discrete k t d.write_locks)
after-IsValid d (release t) h = retain-IsMap lock_key_discrete (λ u. not (u == t)) d.write_locks h

-- A call by another transaction than `t` leaves the keys that `t` holds.
abbrev ByOther : ℕ → Call → Type 0
ByOther t (lock k u) = Unit
ByOther t (release u) = u ≢ t

holder-after :
    (d : ConflictDetector) (c : Call) (k : LockKey) (t : ℕ)
    → IsValid d
    → ByOther t c
    → holder d k ≡ some t
    → holder (after d c) k ≡ some t
unfolding after lock_for_write release_locks
holder-after d (lock j u) k t v o h =
    ground (arith, get-insert lock_key_discrete k j u d.write_locks)
holder-after d (release u) k t v o h =
    ground (arith, get-retain lock_key_discrete (λ x. not (x == u)) k d.write_locks v)

abbrev pub AllByOther : ℕ → List Call → Type 0
AllByOther t [] = Unit
AllByOther t (c ∷ cs) = ByOther t c × AllByOther t cs

holder-after_all :
    (d : ConflictDetector) (cs : List Call) (k : LockKey) (t : ℕ)
    → IsValid d
    → AllByOther t cs
    → holder d k ≡ some t
    → holder (after_all d cs) k ≡ some t
unfolding after_all
holder-after_all d [] k t v o h = h
holder-after_all d (c ∷ cs) k t v o h =
    holder-after_all (after d c) cs k t (after-IsValid d c v) o.1 (holder-after d c k t v o.0 h)

lock_held :
    (d : ConflictDetector) (k : LockKey) (t u : ℕ)
    → holder d k ≡ some t
    → u ≢ t
    → lock_for_write d k u ≡ (err (write_write_conflict k.0 k.1 t u), d)
unfolding lock_for_write
lock_held d k t u h n = ground arith

lock_taken :
    (d : ConflictDetector) (k : LockKey) (t : ℕ)
    → (lock_for_write d k t).0 ≡ ok
    → holder (lock_for_write d k t).1 k ≡ some t
unfolding lock_for_write
lock_taken d k t h = ground (arith, get-insert lock_key_discrete k k t d.write_locks)

-- Once `t` has locked a key, whatever calls of all transactions follow, as long as `t` does not
-- release its locks, every other transaction's lock of that key is refused by the write-write
-- conflict that names `t`, and changes nothing.
pub lock_exclusive :
    (d : ConflictDetector) (k : LockKey) (t u : ℕ) (cs : List Call)
    → IsValid d
    → (lock_for_write d k t).0 ≡ ok
    → AllByOther t cs
    → u ≢ t
    → let e = after_all (after d (lock k t)) cs in
      lock_for_write e k u ≡ (err (write_write_conflict k.0 k.1 t u), e)
unfolding after
lock_exclusive d k t u cs v locked o n =
    let d₁ = after d (lock k t) in
    lock_held (after_all d₁ cs) k t u
      (holder-after_all d₁ cs k t (after-IsValid d (lock k t) v) o (lock_taken d k t locked)) n

-- Releasing the locks of `t` frees the keys that `t` holds and no others.
pub holder-release :
    (d : ConflictDetector) (k : LockKey) (t : ℕ)
    → IsValid d
    → holder (release_locks d t) k
      ≡ elim (holder d k) [ none ↦ none | some u ↦ if u == t then none else some u ]
unfolding release_locks
holder-release d k t v =
    ground (arith, get-retain lock_key_discrete (λ u. not (u == t)) k d.write_locks v)

-- No transaction other than `t` holds the key.
abbrev pub IsFree : ConflictDetector → ℕ → LockKey → Type 0
IsFree d t k = (holder d k ≡ none) ⊎ (holder d k ≡ some t)

abbrev pub AllFree : ConflictDetector → ℕ → List LockKey → Type 0
AllFree d t [] = Unit
AllFree d t (k ∷ ks) = IsFree d t k × AllFree d t ks

abbrev pub InKeys : LockKey → List LockKey → Type 0
InKeys k [] = ⊥
InKeys k (j ∷ js) = (j ≡ k) ⊎ InKeys k js

-- A refusal names a key of the read set and the other transaction that holds it.
abbrev pub Names : ConflictDetector → List LockKey → ℕ → TransactionResult → Type 0
Names d ks t ok = AllFree d t ks
Names d ks t (err e) =
    (k : LockKey) × (u : ℕ) × InKeys k ks
    × (holder d k ≡ some u)
    × (u ≢ t)
    × (e ≡ read_write_conflict k.0 k.1 t u)

Names-more :
    (d : ConflictDetector) (k : LockKey) (ks : List LockKey) (t : ℕ) (r : TransactionResult)
    → IsFree d t k
    → Names d ks t r
    → Names d (k ∷ ks) t r
Names-more d k ks t ok f h = (f, h)
Names-more d k ks t (err e) f (j, u, i, p, n, q) = (j, u, inr i, p, n, q)

-- The check of a read set passes only if no other transaction holds a key of it, and a refusal names
-- a key of the read set and the other transaction that holds it.
pub check_read_write_conflicts_lem :
    (d : ConflictDetector) (ks : List LockKey) (t : ℕ)
    → Names d ks t (check_read_write_conflicts d ks t)
unfolding check_read_write_conflicts
check_read_write_conflicts_lem d [] t = tt
check_read_write_conflicts_lem d (k ∷ ks) t =
    let rest = check_read_write_conflicts_lem d ks t in
    let r = check_read_write_conflicts d ks t in
    let goal = Names d (k ∷ ks) t in
    elim (Option-cases (holder d k)) [
      | inl p ↦
          let e : r ≡ check_read_write_conflicts d (k ∷ ks) t = ground arith in
          subst goal e (Names-more d k ks t r (inl p) rest)
      | inr (u, p) ↦ elim (ℕ_discrete u t) [
        | yes q ↦
            let e : r ≡ check_read_write_conflicts d (k ∷ ks) t = ground arith in
            subst goal e (Names-more d k ks t r (inr (ground arith)) rest)
        | no n ↦
            let f = err (read_write_conflict k.0 k.1 t u) in
            let e : f ≡ check_read_write_conflicts d (k ∷ ks) t = ground arith in
            subst goal e (k, u, inl refl, p, n, refl)
      ]
    ]
