-- ===== src/Pager/Cache/Links.antt =====
-- Runs of linked entries of a cache shard (src/pager/cache.rs), and what changing a link does to them.
use mathlib.Core.Path.{subst}
use nanostore.Prelude.{
  ℕ, ◌≡◌, ◌≢◌, refl, sym, ◌∙◌, Option, none, some, List, [], ◌∷◌, ◌++◌, ℕ_discrete, inl, inr, arith,
  Option-cases,
}
use nanostore.Prelude.Maps.{get, get-insert}
use nanostore.Prelude.Members.{In}
use nanostore.Pager.Cache.{CacheEntry, modify, modify_at, set_prev, set_next}

-- The first of the list, or what follows it; the last, or what stands before it.
abbrev pub head_or : List ℕ → Option ℕ → Option ℕ
head_or [] after = after
head_or (i ∷ is) after = some i

abbrev pub last_or : Option ℕ → List ℕ → Option ℕ
last_or before [] = before
last_or before (i ∷ is) = last_or (some i) is

-- No identifier stands twice.
abbrev pub IsDistinct : List ℕ → Type 0
IsDistinct [] = Unit
IsDistinct (i ∷ is) = (¬ In i is) × IsDistinct is

abbrev pub Entries : Type 0 → Type 0
Entries P = List (ℕ × CacheEntry P)

pub last_or-In : (j : ℕ) (is : List ℕ) → (k : ℕ) × (last_or (some j) is ≡ some k) × In k (j ∷ is)
last_or-In j [] = (j, refl, inl refl)
last_or-In j (i ∷ is) = let (k, e, h) = last_or-In i is in (k, e, inr h)

module _ {P : Type 0} where
  -- An entry with these links.
  pub record LinkedAt (m : Entries P) (i : ℕ) (before after : Option ℕ) : Type 0 where
    pub entry : CacheEntry P
    pub found : get ℕ_discrete i m ≡ some entry
    pub prev_is : entry.prev ≡ before
    pub next_is : entry.next ≡ after

  -- The entries of the list point to one another in its order, the first back to `before` and the
  -- last on to `after`.
  abbrev pub Run : Entries P → Option ℕ → List ℕ → Option ℕ → Type 0
  Run m before [] after = Unit
  Run m before (i ∷ is) after = LinkedAt m i before (head_or is after) × Run m (some i) is after

  pub get-modify_other :
      (i k : ℕ) (f : CacheEntry P → CacheEntry P) (m : Entries P)
      → i ≢ k
      → get ℕ_discrete i (modify k f m) ≡ get ℕ_discrete i m
  unfolding modify
  get-modify_other i k f m n = elim (Option-cases (get ℕ_discrete k m)) [
    | inl e ↦ ground arith
    | inr (entry, e) ↦ ground (arith, get-insert ℕ_discrete i k (f entry) m)
  ]

  pub get-modify :
      (i : ℕ) (f : CacheEntry P → CacheEntry P) (m : Entries P) (entry : CacheEntry P)
      → get ℕ_discrete i m ≡ some entry
      → get ℕ_discrete i (modify i f m) ≡ some (f entry)
  unfolding modify
  get-modify i f m entry e = ground (arith, get-insert ℕ_discrete i i (f entry) m)

  -- Changing an entry outside a run leaves the run.
  pub Run-modify_other :
      (m : Entries P) (k : ℕ) (f : CacheEntry P → CacheEntry P) (before after : Option ℕ)
      (is : List ℕ)
      → ¬ In k is
      → Run m before is after
      → Run (modify k f m) before is after
  Run-modify_other m k f before after [] n r = tt
  Run-modify_other m k f before after (i ∷ is) n r = (
    record {
      entry = r.0.entry;
      found = get-modify_other i k f m (λ e. n (inl e)) ∙ r.0.found;
      prev_is = r.0.prev_is;
      next_is = r.0.next_is;
    },
    Run-modify_other m k f (some i) after is (λ h. n (inr h)) r.1,
  )

  -- Two runs that meet.
  pub Run-split :
      (m : Entries P) (before after : Option ℕ) (us vs : List ℕ)
      → Run m before (us ++ vs) after
      → Run m before us (head_or vs after) × Run m (last_or before us) vs after
  Run-split m before after [] vs r = (tt, r)
  Run-split m before after (u ∷ []) [] r = ((r.0, tt), tt)
  Run-split m before after (u ∷ []) (v ∷ vs) r = ((r.0, tt), r.1)
  Run-split m before after (u ∷ w ∷ us) vs r =
      let (front, back) = Run-split m (some u) after (w ∷ us) vs r.1 in ((r.0, front), back)

  pub Run-join :
      (m : Entries P) (before after : Option ℕ) (us vs : List ℕ)
      → Run m before us (head_or vs after)
      → Run m (last_or before us) vs after
      → Run m before (us ++ vs) after
  Run-join m before after [] vs r s = s
  Run-join m before after (u ∷ []) [] r s = r
  Run-join m before after (u ∷ []) (v ∷ vs) r s = (r.0, s)
  Run-join m before after (u ∷ w ∷ us) vs r s = (r.0, Run-join m (some u) after (w ∷ us) vs r.1 s)

  -- Changing what the first entry of a run points back to.
  pub Run-set_prev :
      (m : Entries P) (before before' after : Option ℕ) (is : List ℕ)
      → IsDistinct is
      → Run m before is after
      → Run (modify_at (head_or is none) (set_prev before') m) before' is after
  Run-set_prev m before before' after [] d r = tt
  Run-set_prev m before before' after (i ∷ is) d r = (
    record {
      entry = set_prev before' r.0.entry;
      found = get-modify i (set_prev before') m r.0.entry r.0.found;
      prev_is = refl;
      next_is = r.0.next_is;
    },
    Run-modify_other m i (set_prev before') (some i) after is d.0 r.1,
  )

  -- Changing what the last entry of a run points on to.
  pub Run-set_next :
      (m : Entries P) (before after after' : Option ℕ) (is : List ℕ)
      → IsDistinct is
      → Run m before is after
      → Run (modify_at (last_or none is) (set_next after') m) before is after'
  Run-set_next m before after after' [] d r = tt
  Run-set_next m before after after' (i ∷ []) d r = (
    record {
      entry = set_next after' r.0.entry;
      found = get-modify i (set_next after') m r.0.entry r.0.found;
      prev_is = r.0.prev_is;
      next_is = refl;
    },
    tt,
  )
  Run-set_next m before after after' (i ∷ j ∷ is) d r =
      let (k, e, h) = last_or-In j is in
      let again = Run-set_next m (some i) after after' (j ∷ is) d.1 r.1 in
      let i_other : i ≢ k = λ p. d.0 (subst (λ x. In x (j ∷ is)) (sym p) h) in
      (
        record {
          entry = r.0.entry;
          found = rw e (get-modify_other i k (set_next after') m i_other ∙ r.0.found);
          prev_is = r.0.prev_is;
          next_is = r.0.next_is;
        },
        again,
      )
