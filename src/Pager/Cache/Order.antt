-- ===== src/Pager/Cache/Order.antt =====
-- A cache shard (src/pager/cache.rs) keeps its pages in the order of their use.
use mathlib.Core.Path.{subst}
use nanostore.Prelude.{
  ℕ, suc, ◌≡◌, ◌≢◌, refl, ap, sym, ◌∙◌, true, false, Option, none, some, List, [], ◌∷◌, ◌++◌,
  ℕ_discrete, inl, inr, arith, Option-cases, length, if◌then◌else◌,
}
use nanostore.Prelude.Maps.{get, IsMap}
use nanostore.Prelude.Members.{In, In-append_right}
use nanostore.Pager.Cache.{
  CacheEntry, CacheShard, modify, modify_at, set_prev, set_next, is_at, or_page, unlink, link_front,
  move_to_front,
}
use nanostore.Pager.Cache.Links.{
  head_or, last_or, last_or-In, IsDistinct, Entries, LinkedAt, Run, get-modify, Run-modify_other,
  Run-split,
}
use nanostore.Pager.Cache.Bypass.{
  IsDistinct-middle, Run-bypass, Run-front, Keeps, Keeps-trans, modify_at-Keeps,
}

pub last_or-append :
    (before : Option ℕ) (us vs : List ℕ)
    → last_or before (us ++ vs) ≡ last_or (last_or before us) vs
last_or-append before [] vs = refl
last_or-append before (u ∷ us) vs = last_or-append (some u) us vs

head_or-append :
    (us vs : List ℕ) (after : Option ℕ) → head_or (us ++ vs) after ≡ head_or us (head_or vs after)
head_or-append [] vs after = refl
head_or-append (u ∷ us) vs after = refl

-- The last page without `p`: `p` is last only where nothing follows it.
tail_without :
    (us vs : List ℕ) (p : ℕ)
    → ¬ In p vs
    → (if is_at (last_or none (us ++ (p ∷ vs))) p
        then last_or none us
        else last_or none (us ++ (p ∷ vs)))
      ≡ last_or none (us ++ vs)
tail_without us [] p n =
    rw (last_or-append none us (p ∷ []), last_or-append none us []) (ground arith)
tail_without us (v ∷ vs) p n =
    let (k, e, h) = last_or-In v vs in
    let k_other : k ≢ p = λ q. n (subst (λ x. In x (v ∷ vs)) q h) in
    rw (last_or-append none us (p ∷ v ∷ vs), last_or-append none us (v ∷ vs), e)
      (ground (arith, k_other))

pub or_page-last : (is : List ℕ) (p : ℕ) → or_page (last_or none is) p ≡ last_or none (p ∷ is)
or_page-last [] p = refl
or_page-last (i ∷ is) p = let (k, e, h) = last_or-In i is in rw e refl

pub length-middle : (us vs : List ℕ) (p : ℕ) → length (us ++ (p ∷ vs)) ≡ suc (length (us ++ vs))
length-middle [] vs p = refl
length-middle (u ∷ us) vs p = ap suc (length-middle us vs p)

pub In-middle : (us vs : List ℕ) (p i : ℕ) → In i (us ++ (p ∷ vs)) → In i (p ∷ (us ++ vs))
In-middle [] vs p i h = h
In-middle (u ∷ us) vs p i (inl e) = inr (inl e)
In-middle (u ∷ us) vs p i (inr h) = elim (In-middle us vs p i h) [
  | inl e ↦ inl e
  | inr m ↦ inr (inr m)
]

module _ {P : Type 0} where
  -- The entries are those of `ids`, each once, and the links run through them in this order.
  pub record Ordered (s : CacheShard P) (ids : List ℕ) : Type 0 where
    pub distinct : IsDistinct ids
    pub run : Run s.entries none ids none
    pub head_is : s.lru_head ≡ head_or ids none
    pub tail_is : s.lru_tail ≡ last_or none ids
    pub absent : (i : ℕ) → ¬ In i ids → get ℕ_discrete i s.entries ≡ none
    pub is_map : IsMap ℕ_discrete s.entries
    pub counted : length s.entries ≡ length ids

  -- `p` in its place: its links, and the runs on either side.
  pub record Place (m : Entries P) (us vs : List ℕ) (p : ℕ) : Type 0 where
    pub front : Run m none us (some p)
    pub at : LinkedAt m p (last_or none us) (head_or vs none)
    pub back : Run m (some p) vs none

  pub place :
      (m : Entries P) (us vs : List ℕ) (p : ℕ) → Run m none (us ++ (p ∷ vs)) none → Place m us vs p
  place m us vs p r =
      let (front, rest) = Run-split m none none us (p ∷ vs) r in
      record { front = front; at = rest.0; back = rest.1 }

  -- The entries after the neighbors of a page are linked to one another.
  abbrev pub bypass : (us vs : List ℕ) → Entries P → Entries P
  bypass us vs m =
      modify_at (head_or vs none) (set_prev (last_or none us))
        (modify_at (last_or none us) (set_next (head_or vs none)) m)

  pub bypass-Keeps : (us vs : List ℕ) (m : Entries P) → Keeps m (bypass us vs m)
  bypass-Keeps us vs m =
      let m₁ = modify_at (last_or none us) (set_next (head_or vs none)) m in
      Keeps-trans m m₁ _
        (modify_at-Keeps (last_or none us) (set_next (head_or vs none)) m (λ e. refl))
        (modify_at-Keeps (head_or vs none) (set_prev (last_or none us)) m₁ (λ e. refl))

  unlink-bypass :
      (s : CacheShard P) (us vs : List ℕ) (p : ℕ)
      → LinkedAt s.entries p (last_or none us) (head_or vs none)
      → unlink s p ≡ record s {
        entries = bypass us vs s.entries;
        lru_tail = if is_at s.lru_tail p then last_or none us else s.lru_tail;
      }
  unfolding unlink
  unlink-bypass s us vs p at = rw (at.found, unlink, at.prev_is, at.next_is) refl

  found_again :
      (m m' : Entries P) (p : ℕ) (e : CacheEntry P)
      → Keeps m m'
      → get ℕ_discrete p m ≡ some e
      → (e' : CacheEntry P) × (get ℕ_discrete p m' ≡ some e')
  found_again m m' p e k h = elim (Option-cases (get ℕ_discrete p m')) [
    | inl q ↦ absurd (ground (arith, k.same_held p, h, q))
    | inr (e', q) ↦ (e', q)
  ]

  pub missing_still :
      (m m' : Entries P) (p : ℕ)
      → Keeps m m'
      → get ℕ_discrete p m ≡ none
      → get ℕ_discrete p m' ≡ none
  missing_still m m' p k h = elim (Option-cases (get ℕ_discrete p m')) [
    | inl q ↦ q
    | inr (e', q) ↦ absurd (ground (arith, k.same_held p, h, q))
  ]

  -- The entries after `link_front`.
  abbrev pub fronted : Option ℕ → ℕ → Entries P → Entries P
  fronted old_head p m =
      modify_at old_head (set_prev (some p)) (modify p (λ e. set_prev none (set_next old_head e)) m)

  pub fronted-Keeps : (old_head : Option ℕ) (p : ℕ) (m : Entries P) → Keeps m (fronted old_head p m)
  fronted-Keeps old_head p m =
      let m₁ = modify p (λ e. set_prev none (set_next old_head e)) m in
      Keeps-trans m m₁ _
        (modify_at-Keeps (some p) (λ e. set_prev none (set_next old_head e)) m (λ e. refl))
        (modify_at-Keeps old_head (set_prev (some p)) m₁ (λ e. refl))

  fronted-Run :
      (m : Entries P) (p : ℕ) (is : List ℕ) (e : CacheEntry P)
      → IsDistinct is
      → ¬ In p is
      → get ℕ_discrete p m ≡ some e
      → Run m none is none
      → Run (fronted (head_or is none) p m) none (p ∷ is) none
  fronted-Run m p is e d n found r =
      let f : CacheEntry P → CacheEntry P = λ x. set_prev none (set_next (head_or is none) x) in
      Run-front (modify p f m) p is d n
        (record { entry = f e; found = get-modify p f m e found; prev_is = refl; next_is = refl })
        (Run-modify_other m p f none none is n r)

  -- A shard whose list runs through `is` only, with an entry for `p` besides.
  record Unlinked (t : CacheShard P) (is : List ℕ) (p : ℕ) : Type 0 where
    distinct : IsDistinct is
    off : ¬ In p is
    run : Run t.entries none is none
    head_is : t.lru_head ≡ head_or is none
    tail_is : t.lru_tail ≡ last_or none is
    entry : CacheEntry P
    found : get ℕ_discrete p t.entries ≡ some entry
    absent : (i : ℕ) → ¬ In i (p ∷ is) → get ℕ_discrete i t.entries ≡ none
    is_map : IsMap ℕ_discrete t.entries
    counted : length t.entries ≡ suc (length is)

  link_front-Ordered :
      (t : CacheShard P) (is : List ℕ) (p : ℕ) → Unlinked t is p → Ordered (link_front t p) (p ∷ is)
  unfolding link_front
  link_front-Ordered t is p k =
      let keeps = fronted-Keeps t.lru_head p t.entries in
      record {
        distinct = (k.off, k.distinct);
        run =
            subst (λ h. Run (fronted h p t.entries) none (p ∷ is) none) (sym k.head_is)
              (fronted-Run t.entries p is k.entry k.distinct k.off k.found k.run);
        head_is = refl;
        tail_is = ap (λ l. or_page l p) k.tail_is ∙ or_page-last is p;
        absent = λ i n. missing_still t.entries _ i keeps (k.absent i n);
        is_map = keeps.is_map k.is_map;
        counted = keeps.same_length ∙ k.counted;
      }

  -- A page of the shard that is not at its head, taken out of the list.
  unlink-Unlinked :
      (s : CacheShard P) (u : ℕ) (us vs : List ℕ) (p : ℕ)
      → Ordered s ((u ∷ us) ++ (p ∷ vs))
      → Unlinked (unlink s p) ((u ∷ us) ++ vs) p
  unlink-Unlinked s u us vs p o =
      let pl = place s.entries (u ∷ us) vs p o.run in
      let (d, n) = IsDistinct-middle (u ∷ us) vs p o.distinct in
      let keeps = bypass-Keeps (u ∷ us) vs s.entries in
      let (e, found) = found_again s.entries _ p pl.at.entry keeps pl.at.found in
      subst (λ t. Unlinked t ((u ∷ us) ++ vs) p) (sym (unlink-bypass s (u ∷ us) vs p pl.at))
        (record {
          distinct = d;
          off = n;
          run = Run-bypass s.entries p (u ∷ us) vs d pl.front pl.back;
          head_is = o.head_is;
          tail_is =
              ap (λ l. if is_at l p then last_or none (u ∷ us) else l) o.tail_is
              ∙ tail_without (u ∷ us) vs p (λ h. n (In-append_right p (u ∷ us) vs h));
          entry = e;
          found = found;
          absent = λ i m.
              missing_still s.entries _ i keeps (o.absent i (λ h. m (In-middle (u ∷ us) vs p i h)));
          is_map = keeps.is_map o.is_map;
          counted = keeps.same_length ∙ (o.counted ∙ length-middle (u ∷ us) vs p);
        })

  -- A page of the shard comes to the front, and the others keep their order.
  pub move_to_front-Ordered :
      (s : CacheShard P) (us vs : List ℕ) (p : ℕ)
      → Ordered s (us ++ (p ∷ vs))
      → Ordered (move_to_front s p) (p ∷ (us ++ vs))
  unfolding move_to_front
  move_to_front-Ordered s [] vs p o =
      let at_head : is_at s.lru_head p ≡ true = ground (arith, o.head_is) in rw at_head o
  move_to_front-Ordered s (u ∷ us) vs p o =
      let (d, n) = IsDistinct-middle (u ∷ us) vs p o.distinct in
      let other : is_at s.lru_head p ≡ false = ground (arith, o.head_is, n) in
      rw other (link_front-Ordered (unlink s p) ((u ∷ us) ++ vs) p (unlink-Unlinked s u us vs p o))
