-- ===== src/Pager/Cache/Bypass.antt =====
-- Taking an entry out of the list of a cache shard (src/pager/cache.rs) and putting one in front, and
-- what these changes keep of the entries.
use mathlib.Core.Path.{subst}
use nanostore.Prelude.{
  ℕ, suc, ◌≡◌, refl, sym, ◌∙◌, Bool, Option, none, some, List, [], ◌∷◌, ◌++◌, ℕ_discrete, inl, inr,
  arith, Option-cases, length,
}
use nanostore.Prelude.Maps.{get, insert, get-insert, IsMap, insert-IsMap}
use nanostore.Prelude.Members.{In, In-append, In-append_left, In-append_right}
use nanostore.Pager.Cache.{CacheEntry, modify, modify_at, set_prev, set_next}
use nanostore.Pager.Cache.Links.{
  head_or, last_or, last_or-In, IsDistinct, Entries, LinkedAt, Run, get-modify_other,
  Run-modify_other, Run-join, Run-set_prev, Run-set_next,
}

pub IsDistinct-append :
    (us vs : List ℕ)
    → IsDistinct (us ++ vs)
    → IsDistinct us × IsDistinct vs × ((k : ℕ) → In k us → ¬ In k vs)
IsDistinct-append [] vs d = (tt, d, λ k h. absurd h)
IsDistinct-append (u ∷ us) vs d =
    let (left, right, apart) = IsDistinct-append us vs d.1 in
    (
      (λ h. d.0 (In-append_left u us vs h), left),
      right,
      λ k h g. elim h [
        | inl p ↦ d.0 (In-append_right u us vs (subst (λ x. In x vs) (sym p) g))
        | inr m ↦ apart k m g
      ],
    )

pub IsDistinct-middle :
    (us vs : List ℕ) (p : ℕ)
    → IsDistinct (us ++ (p ∷ vs))
    → IsDistinct (us ++ vs) × (¬ In p (us ++ vs))
IsDistinct-middle [] vs p d = (d.1, d.0)
IsDistinct-middle (u ∷ us) vs p d =
    let (rest, absent) = IsDistinct-middle us vs p d.1 in
    (
      (
        λ h. elim (In-append u us vs h) [
          | inl a ↦ d.0 (In-append_left u us (p ∷ vs) a)
          | inr b ↦ d.0 (In-append_right u us (p ∷ vs) (inr b))
        ],
        rest,
      ),
      λ h. elim h [ inl e ↦ d.0 (In-append_right u us (p ∷ vs) (inl (sym e))) | inr m ↦ absent m ],
    )

-- The last of one list is not in a list apart from it, and neither is the first.
last-apart :
    (us vs : List ℕ) (k : ℕ)
    → ((k : ℕ) → In k us → ¬ In k vs)
    → last_or none us ≡ some k
    → ¬ In k vs
last-apart [] vs k apart e h = absurd (ground arith)
last-apart (u ∷ us) vs k apart e h =
    let (j, f, g) = last_or-In u us in
    apart k (subst (λ x. In x (u ∷ us)) (ground (arith, e, f)) g) h

head-apart :
    (us vs : List ℕ) (k : ℕ)
    → ((k : ℕ) → In k us → ¬ In k vs)
    → head_or vs none ≡ some k
    → ¬ In k us
head-apart us [] k apart e h = absurd (ground arith)
head-apart us (v ∷ vs) k apart e h = apart k h (inl (ground arith))

module _ {P : Type 0} where
  Run-modify_at_other :
      (m : Entries P) (link : Option ℕ) (f : CacheEntry P → CacheEntry P) (before after : Option ℕ)
      (is : List ℕ)
      → ((k : ℕ) → link ≡ some k → ¬ In k is)
      → Run m before is after
      → Run (modify_at link f m) before is after
  Run-modify_at_other m none f before after is n r = r
  Run-modify_at_other m (some k) f before after is n r =
      Run-modify_other m k f before after is (n k refl) r

  -- The two runs on either side of `p` meet after its neighbors are linked to one another.
  pub Run-bypass :
      (m : Entries P) (p : ℕ) (us vs : List ℕ)
      → IsDistinct (us ++ vs)
      → Run m none us (some p)
      → Run m (some p) vs none
      → Run
          (modify_at
            (head_or vs none)
            (set_prev (last_or none us))
            (modify_at (last_or none us) (set_next (head_or vs none)) m))
          none
          (us ++ vs)
          none
  Run-bypass m p us vs d front back =
      let (left, right, apart) = IsDistinct-append us vs d in
      let next = head_or vs none in
      let prev = last_or none us in
      let m₁ = modify_at prev (set_next next) m in
      let front₁ = Run-set_next m none (some p) next us left front in
      let back₁ =
        Run-modify_at_other m prev (set_next next) (some p) none vs
          (λ k e. last-apart us vs k apart e) back in
      Run-join _ none none us vs
        (Run-modify_at_other m₁ next (set_prev prev) none next us
          (λ k e. head-apart us vs k apart e) front₁)
        (Run-set_prev m₁ (some p) prev none vs right back₁)

  -- An entry with the head as its next goes in front.
  pub Run-front :
      (m : Entries P) (p : ℕ) (is : List ℕ)
      → IsDistinct is
      → ¬ In p is
      → LinkedAt m p none (head_or is none)
      → Run m none is none
      → Run (modify_at (head_or is none) (set_prev (some p)) m) none (p ∷ is) none
  Run-front m p [] d n at r = (at, tt)
  Run-front m p (i ∷ is) d n at r = (
    record {
      entry = at.entry;
      found = get-modify_other p i (set_prev (some p)) m (λ e. n (inl (sym e))) ∙ at.found;
      prev_is = at.prev_is;
      next_is = at.next_is;
    },
    Run-set_prev m none (some p) none (i ∷ is) d r,
  )

  -- What an entry holds apart from its links.
  abbrev pub held : Option (CacheEntry P) → Option (P × Bool)
  held none = none
  held (some e) = some (e.page, e.dirty)

  -- The same identifiers with the same pages.
  pub record Keeps (m m' : Entries P) : Type 0 where
    pub is_map : IsMap ℕ_discrete m → IsMap ℕ_discrete m'
    pub same_length : length m' ≡ length m
    pub same_held : (i : ℕ) → held (get ℕ_discrete i m') ≡ held (get ℕ_discrete i m)

  pub Keeps-refl : (m : Entries P) → Keeps m m
  Keeps-refl m = record { is_map = λ h. h; same_length = refl; same_held = λ i. refl }

  pub Keeps-trans : (m n o : Entries P) → Keeps m n → Keeps n o → Keeps m o
  Keeps-trans m n o h k = record {
    is_map = λ x. k.is_map (h.is_map x);
    same_length = k.same_length ∙ h.same_length;
    same_held = λ i. k.same_held i ∙ h.same_held i;
  }

  pub length-insert_found :
      (k : ℕ) (e e' : CacheEntry P) (m : Entries P)
      → get ℕ_discrete k m ≡ some e
      → length (insert ℕ_discrete k e' m) ≡ length m
  unfolding get insert
  length-insert_found k e e' [] h = absurd (ground arith)
  length-insert_found k e e' ((j, w) ∷ m) h = ground (arith, length-insert_found k e e' m)

  pub length-insert_new :
      (k : ℕ) (e : CacheEntry P) (m : Entries P)
      → get ℕ_discrete k m ≡ none
      → length (insert ℕ_discrete k e m) ≡ suc (length m)
  unfolding get insert
  length-insert_new k e [] h = refl
  length-insert_new k e ((j, w) ∷ m) h = ground (arith, length-insert_new k e m)

  modify-Keeps :
      (k : ℕ) (f : CacheEntry P → CacheEntry P) (m : Entries P)
      → ((e : CacheEntry P) → held (some (f e)) ≡ held (some e))
      → Keeps m (modify k f m)
  unfolding modify
  modify-Keeps k f m same = elim (Option-cases (get ℕ_discrete k m)) [
    | inl e ↦ rw (e, modify) (Keeps-refl m)
    | inr (entry, e) ↦
        rw (e, modify)
          (record {
            is_map = λ h. insert-IsMap ℕ_discrete k (f entry) m h;
            same_length = length-insert_found k entry (f entry) m e;
            same_held = λ i. ground (arith, get-insert ℕ_discrete i k (f entry) m, same entry, e);
          })
  ]

  pub modify_at-Keeps :
      (link : Option ℕ) (f : CacheEntry P → CacheEntry P) (m : Entries P)
      → ((e : CacheEntry P) → held (some (f e)) ≡ held (some e))
      → Keeps m (modify_at link f m)
  modify_at-Keeps none f m same = Keeps-refl m
  modify_at-Keeps (some k) f m same = modify-Keeps k f m same
