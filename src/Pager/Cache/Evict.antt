-- ===== src/Pager/Cache/Evict.antt =====
-- Entries that enter and leave a cache shard (src/pager/cache.rs).
use mathlib.Core.Path.{subst}
use mathlib.Core.List.{append-nil}
use nanostore.Prelude.{
  ℕ, suc, ◌≡◌, refl, ap, sym, ◌∙◌, Bool, Option, none, some, List, [], ◌∷◌, ◌++◌, ℕ_discrete, inl,
  inr, arith, length,
}
use nanostore.Prelude.Maps.{get, insert, remove, get-insert, get-remove, IsMap, insert-IsMap}
use nanostore.Prelude.Members.{In, In-append_left, In-append_right}
use nanostore.Pager.Cache.{
  CacheEntry, CacheShard, modify_at, set_prev, removed, remove_entry, insert_front, or_page,
}
use nanostore.Pager.Cache.Links.{head_or, last_or, last_or-In, Entries, Run}
use nanostore.Pager.Cache.Bypass.{
  IsDistinct-middle, IsDistinct-append, Run-bypass, Run-front, modify_at-Keeps, length-insert_new,
}
use nanostore.Pager.Cache.Order.{
  Ordered, place, bypass-Keeps, missing_still, In-middle, length-middle, or_page-last,
  last_or-append,
}

head_without :
    (us vs : List ℕ) (head : Option ℕ) (p : ℕ)
    → head ≡ head_or (us ++ (p ∷ vs)) none
    → elim (last_or none us) [ none ↦ head_or vs none | some prev_id ↦ head ]
      ≡ head_or (us ++ vs) none
head_without [] vs head p e = refl
head_without (u ∷ us) vs head p e = let (k, f, h) = last_or-In u us in rw f e

tail_kept :
    (us vs : List ℕ) (tail : Option ℕ) (p : ℕ)
    → tail ≡ last_or none (us ++ (p ∷ vs))
    → elim (head_or vs none) [ none ↦ last_or none us | some next_id ↦ tail ]
      ≡ last_or none (us ++ vs)
tail_kept us [] tail p e = rw (append-nil us) refl
tail_kept us (v ∷ vs) tail p e =
    e ∙ (last_or-append none us (p ∷ v ∷ vs) ∙ sym (last_or-append none us (v ∷ vs)))

module _ {P : Type 0} where
  length-remove_absent :
      (k : ℕ) (m : Entries P)
      → get ℕ_discrete k m ≡ none
      → length (remove ℕ_discrete k m) ≡ length m
  unfolding get remove
  length-remove_absent k [] h = refl
  length-remove_absent k ((j, w) ∷ m) h = ground (arith, length-remove_absent k m)

  length-remove :
      (k : ℕ) (e : CacheEntry P) (m : Entries P)
      → IsMap ℕ_discrete m
      → get ℕ_discrete k m ≡ some e
      → suc (length (remove ℕ_discrete k m)) ≡ length m
  unfolding get remove
  length-remove k e [] d h = absurd (ground arith)
  length-remove k e ((j, w) ∷ m) d h = elim (ℕ_discrete j k) [
    | yes p ↦
        let gone : get ℕ_discrete k m ≡ none = subst (λ x. get ℕ_discrete x m ≡ none) p d.0 in
        ground (arith, length-remove_absent k m gone)
    | no n ↦ ground (arith, length-remove k e m d.1)
  ]

  remove-IsMap :
      (k : ℕ) (m : Entries P) → IsMap ℕ_discrete m → IsMap ℕ_discrete (remove ℕ_discrete k m)
  unfolding get remove
  remove-IsMap k [] d = tt
  remove-IsMap k ((j, w) ∷ m) d =
      ground (arith, get-remove ℕ_discrete j k m, remove-IsMap k m d.1, d.0)

  Run-remove_other :
      (m : Entries P) (k : ℕ) (before after : Option ℕ) (is : List ℕ)
      → ¬ In k is
      → Run m before is after
      → Run (remove ℕ_discrete k m) before is after
  Run-remove_other m k before after [] n r = tt
  Run-remove_other m k before after (i ∷ is) n r = (
    record {
      entry = r.0.entry;
      found = ground (arith, get-remove ℕ_discrete i k m, r.0.found, n);
      prev_is = r.0.prev_is;
      next_is = r.0.next_is;
    },
    Run-remove_other m k (some i) after is (λ h. n (inr h)) r.1,
  )

  Run-insert_other :
      (m : Entries P) (k : ℕ) (e : CacheEntry P) (before after : Option ℕ) (is : List ℕ)
      → ¬ In k is
      → Run m before is after
      → Run (insert ℕ_discrete k e m) before is after
  Run-insert_other m k e before after [] n r = tt
  Run-insert_other m k e before after (i ∷ is) n r = (
    record {
      entry = r.0.entry;
      found = ground (arith, get-insert ℕ_discrete i k e m, r.0.found, n);
      prev_is = r.0.prev_is;
      next_is = r.0.next_is;
    },
    Run-insert_other m k e (some i) after is (λ h. n (inr h)) r.1,
  )

  removed_absent :
      (m : Entries P) (p : ℕ) (us vs : List ℕ) (i : ℕ)
      → ((i : ℕ) → ¬ In i (us ++ (p ∷ vs)) → get ℕ_discrete i m ≡ none)
      → ¬ In i (us ++ vs)
      → get ℕ_discrete i (remove ℕ_discrete p m) ≡ none
  removed_absent m p us vs i absent n = elim (ℕ_discrete p i) [
    | yes e ↦ ground (arith, get-remove ℕ_discrete i p m, e)
    | no k ↦ ground (
      arith,
      get-remove ℕ_discrete i p m,
      absent i (λ h. elim (In-middle us vs p i h) [ inl e ↦ k e | inr x ↦ n x ]),
    )
  ]

  -- Removing a page of the shard leaves the others in their order.
  pub remove_entry-Ordered :
      (s : CacheShard P) (us vs : List ℕ) (p : ℕ)
      → Ordered s (us ++ (p ∷ vs))
      → Ordered (remove_entry s p).1 (us ++ vs)
  unfolding remove_entry
  remove_entry-Ordered s us vs p o =
      let pl = place s.entries us vs p o.run in
      let (d, n) = IsDistinct-middle us vs p o.distinct in
      let rest = remove ℕ_discrete p s.entries in
      let keeps = bypass-Keeps us vs rest in
      let (left, right, apart) = IsDistinct-append us vs d in
      let shrunk : suc (length rest) ≡ length s.entries =
        length-remove p pl.at.entry s.entries o.is_map pl.at.found in
      let gone : (i : ℕ) → ¬ In i (us ++ vs) → get ℕ_discrete i rest ≡ none =
        λ i m. removed_absent s.entries p us vs i o.absent m in
      rw (pl.at.found, remove_entry, removed, pl.at.prev_is, pl.at.next_is)
        (record {
          distinct = d;
          run =
              Run-bypass rest p us vs d
                (Run-remove_other s.entries p none (some p) us (λ h. n (In-append_left p us vs h))
                  pl.front)
                (Run-remove_other s.entries p (some p) none vs (λ h. n (In-append_right p us vs h))
                  pl.back);
          head_is =
              ap (λ x. elim (last_or none us) [ none ↦ x | some prev_id ↦ s.lru_head ])
                pl.at.next_is
              ∙ head_without us vs s.lru_head p o.head_is;
          tail_is =
              ap (λ x. elim (head_or vs none) [ none ↦ x | some next_id ↦ s.lru_tail ])
                pl.at.prev_is
              ∙ tail_kept us vs s.lru_tail p o.tail_is;
          absent = λ i m. missing_still rest _ i keeps (gone i m);
          is_map = keeps.is_map (remove-IsMap p s.entries o.is_map);
          counted = ground (arith, keeps.same_length, shrunk, o.counted, length-middle us vs p);
        })

  -- A page that is not in the shard goes to the front.
  pub insert_front-Ordered :
      (s : CacheShard P) (is : List ℕ) (p : ℕ) (page : P) (dirty : Bool)
      → Ordered s is
      → ¬ In p is
      → Ordered (insert_front s p page dirty) (p ∷ is)
  unfolding insert_front
  insert_front-Ordered s is p page dirty o n =
      let entry : CacheEntry P = record {
        page = page;
        dirty = dirty;
        prev = none;
        next = s.lru_head;
      } in
      let m = insert ℕ_discrete p entry s.entries in
      let keeps = modify_at-Keeps s.lru_head (set_prev (some p)) m (λ e. refl) in
      record {
        distinct = (n, o.distinct);
        run =
            subst (λ h. Run (modify_at h (set_prev (some p)) m) none (p ∷ is) none) (sym o.head_is)
              (Run-front m p is o.distinct n
                (record {
                  entry = entry;
                  found = ground (arith, get-insert ℕ_discrete p p entry s.entries);
                  prev_is = refl;
                  next_is = o.head_is;
                })
                (Run-insert_other s.entries p entry none none is n o.run));
        head_is = refl;
        tail_is = ap (λ l. or_page l p) o.tail_is ∙ or_page-last is p;
        absent = λ i a. missing_still m _ i keeps (
            ground
              (arith, get-insert ℕ_discrete i p entry s.entries, o.absent i (λ h. a (inr h)), a));
        is_map = keeps.is_map (insert-IsMap ℕ_discrete p entry s.entries o.is_map);
        counted =
            keeps.same_length
            ∙ (length-insert_new p entry s.entries (o.absent p n) ∙ ap suc o.counted);
      }
