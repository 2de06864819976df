-- ===== src/Pager/Cache/Lru.antt =====
-- The use of a cache shard (src/pager/cache.rs) as a least-recently-used list.
use mathlib.Core.Path.{subst}
use mathlib.Core.List.{append-nil}
use nanostore.Prelude.{
  ℕ, ◌+◌, ◌≡◌, refl, ap, sym, ◌∙◌, Bool, true, false, ◌||◌, Option, none, some, List, [], ◌∷◌, ◌++◌,
  ℕ_discrete, inl, inr, arith, Option-cases, Bool-cases, length, leb, if◌then◌else◌,
}
use nanostore.Prelude.Maps.{get, insert, get-insert, insert-IsMap}
use nanostore.Prelude.Members.{In, member, In-of_member, member_of_In}
use nanostore.Pager.Cache.{
  CacheEntry, CacheShard, get_page, put, evict_lru, remove_entry, insert_front, move_to_front,
}
use nanostore.Pager.Cache.Links.{last_or, Run, Entries}
use nanostore.Pager.Cache.Bypass.{length-insert_found}
use nanostore.Pager.Cache.Order.{Ordered, place, move_to_front-Ordered, last_or-append}
use nanostore.Pager.Cache.Evict.{remove_entry-Ordered, insert_front-Ordered}
use nanostore.Pager.Cache.Use.{
  without, all_but_last, order_read, order_put, split_at, split_last, In-all_but_last,
}

module _ {P : Type 0} where
  -- The statistics do not matter for the order.
  pub Ordered-again :
      (s t : CacheShard P) (is : List ℕ)
      → t.entries ≡ s.entries
      → t.lru_head ≡ s.lru_head
      → t.lru_tail ≡ s.lru_tail
      → Ordered s is
      → Ordered t is
  Ordered-again s t is e h l o = record {
    distinct = o.distinct;
    run = subst (λ m. Run m none is none) (sym e) o.run;
    head_is = h ∙ o.head_is;
    tail_is = l ∙ o.tail_is;
    absent = λ i n. ap (get ℕ_discrete i) e ∙ o.absent i n;
    is_map = rw e o.is_map;
    counted = ap length e ∙ o.counted;
  }

  -- The shard evicts the page that was used least recently.
  evict_lru-Ordered :
      (s : CacheShard P) (is : List ℕ) → Ordered s is → Ordered (evict_lru s).1 (all_but_last is)
  unfolding evict_lru all_but_last
  evict_lru-Ordered s [] o =
      let nothing : evict_lru s ≡ (none, s) = ground (arith, o.tail_is) in
      subst (λ r. Ordered r.1 []) (sym nothing) o
  evict_lru-Ordered s (i ∷ is) o =
      let (us, p, e, w) = split_last i is in
      let tail : s.lru_tail ≡ some p =
        o.tail_is ∙ (ap (last_or none) e ∙ last_or-append none us (p ∷ [])) in
      let t : CacheShard P = record s {
        stats = record (s.stats) { evictions = s.stats.evictions + 1 };
      } in
      let o₁ : Ordered t (us ++ (p ∷ [])) =
        Ordered-again s t (us ++ (p ∷ [])) refl refl refl (subst (Ordered s) e o) in
      let at_tail : evict_lru s ≡ remove_entry t p = ground (arith, tail) in
      let o₂ : Ordered (remove_entry t p).1 us =
        subst (Ordered (remove_entry t p).1) (append-nil us) (remove_entry-Ordered t us [] p o₁) in
      subst (Ordered (evict_lru s).1) (sym w) (subst (λ r. Ordered r.1 us) (sym at_tail) o₂)

  -- The identifiers of the order are those of the entries.
  pub member_missing :
      (s : CacheShard P) (is : List ℕ) (p : ℕ)
      → Ordered s is
      → get ℕ_discrete p s.entries ≡ none
      → member p is ≡ false
  member_missing s is p o h = elim (Bool-cases (member p is)) [
    | inr e ↦ e
    | inl e ↦
        let (us, vs, q, w) = split_at p is (In-of_member p is e) in
        let pl = place s.entries us vs p (subst (λ x. Run s.entries none x none) q o.run) in
        absurd (ground (arith, h, pl.at.found))
  ]

  pub member_found :
      (s : CacheShard P) (is : List ℕ) (p : ℕ) (entry : CacheEntry P)
      → Ordered s is
      → get ℕ_discrete p s.entries ≡ some entry
      → member p is ≡ true
  member_found s is p entry o h = elim (Bool-cases (member p is)) [
    | inl e ↦ e
    | inr e ↦ absurd (ground (arith, h, o.absent p (λ m. ground (arith, e, member_of_In p is m))))
  ]

  used-Ordered :
      (s : CacheShard P) (is : List ℕ) (p : ℕ)
      → Ordered s is
      → member p is ≡ true
      → Ordered (move_to_front s p) (p ∷ without p is)
  used-Ordered s is p o e =
      let (us, vs, q, w) = split_at p is (In-of_member p is e) in
      subst (λ x. Ordered (move_to_front s p) (p ∷ x)) (sym w)
        (move_to_front-Ordered s us vs p (subst (Ordered s) q o))

  -- Reading a page brings it to the front.
  pub get_page-Ordered :
      (s : CacheShard P) (is : List ℕ) (p : ℕ)
      → Ordered s is
      → Ordered (get_page s p).1 (order_read p is)
  unfolding get_page order_read
  get_page-Ordered s is p o = elim (Option-cases (get ℕ_discrete p s.entries)) [
    | inl h ↦ rw (h, get_page, member_missing s is p o h) (Ordered-again s _ is refl refl refl o)
    | inr (entry, h) ↦
        rw (h, get_page, member_found s is p entry o h)
          (used-Ordered _ is p
            (Ordered-again s (record s { stats = record (s.stats) { hits = s.stats.hits + 1 } }) is
              refl refl refl o)
            (member_found s is p entry o h))
  ]

  Run-replaced :
      (m : Entries P) (p : ℕ) (entry e : CacheEntry P) (before after : Option ℕ) (is : List ℕ)
      → get ℕ_discrete p m ≡ some entry
      → e.prev ≡ entry.prev
      → e.next ≡ entry.next
      → Run m before is after
      → Run (insert ℕ_discrete p e m) before is after
  Run-replaced m p entry e before after [] h q n r = tt
  Run-replaced m p entry e before after (i ∷ is) h q n r = (
    elim (ℕ_discrete p i) [
      | yes same ↦ record {
        entry = e;
        found = ground (arith, get-insert ℕ_discrete i p e m, same);
        prev_is = ground (arith, q, r.0.found, r.0.prev_is, h, same);
        next_is = ground (arith, n, r.0.found, r.0.next_is, h, same);
      }
      | no other ↦ record {
        entry = r.0.entry;
        found = ground (arith, get-insert ℕ_discrete i p e m, other, r.0.found);
        prev_is = r.0.prev_is;
        next_is = r.0.next_is;
      }
    ],
    Run-replaced m p entry e (some i) after is h q n r.1,
  )

  -- Overwriting a page keeps the order.
  pub replaced-Ordered :
      (s : CacheShard P) (is : List ℕ) (p : ℕ) (entry : CacheEntry P) (page : P) (dirty : Bool)
      → get ℕ_discrete p s.entries ≡ some entry
      → Ordered s is
      → Ordered
          (record s {
            entries = insert ℕ_discrete p (record entry { page = page; dirty = dirty }) s.entries;
          })
          is
  replaced-Ordered s is p entry page dirty h o =
      let e : CacheEntry P = record entry { page = page; dirty = dirty } in
      record {
        distinct = o.distinct;
        run = Run-replaced s.entries p entry e none none is h refl refl o.run;
        head_is = o.head_is;
        tail_is = o.tail_is;
        absent = λ i n. ground (arith, get-insert ℕ_discrete i p e s.entries, o.absent i n, h);
        is_map = insert-IsMap ℕ_discrete p e s.entries o.is_map;
        counted = length-insert_found p entry e s.entries h ∙ o.counted;
      }

  -- The eviction that makes room.
  room-Ordered :
      (s : CacheShard P) (is : List ℕ) (full : Bool)
      → Ordered s is
      → Ordered (if full then evict_lru s else (none, s)).1 (if full then all_but_last is else is)
  room-Ordered s is true o = evict_lru-Ordered s is o
  room-Ordered s is false o = o

  new-Ordered :
      (s : CacheShard P) (is : List ℕ) (p : ℕ) (page : P) (dirty : Bool)
      → Ordered s is
      → member p is ≡ false
      → Ordered
          (insert_front
            (if leb s.capacity (length s.entries) then evict_lru s else (none, s)).1
            p
            page
            dirty)
          (p ∷ (if leb s.capacity (length is) then all_but_last is else is))
  new-Ordered s is p page dirty o missing =
      let full = leb s.capacity (length is) in
      let room : Ordered (if leb s.capacity (length s.entries) then evict_lru s else (none, s)).1
          (if full then all_but_last is else is) =
        subst
          (λ n.
            Ordered (if leb s.capacity n then evict_lru s else (none, s)).1
              (if full then all_but_last is else is))
          (sym o.counted) (room-Ordered s is full o) in
      insert_front-Ordered _ _ p page dirty room (absent full)
    where
      absent : (full : Bool) → ¬ In p (if full then all_but_last is else is)
      absent true h = ground (arith, missing, member_of_In p is (In-all_but_last p is h))
      absent false h = ground (arith, missing, member_of_In p is h)

  -- Putting a page brings it to the front, after an eviction where it is new and the shard is full.
  pub put-Ordered :
      (s : CacheShard P) (is : List ℕ) (p : ℕ) (page : P) (dirty : Bool)
      → Ordered s is
      → Ordered (put s p page dirty).1 (order_put s.capacity p is)
  unfolding put order_put
  put-Ordered s is p page dirty o = elim (Option-cases (get ℕ_discrete p s.entries)) [
    | inr (entry, h) ↦
        rw (h, put, member_found s is p entry o h)
          (used-Ordered _ is p (replaced-Ordered s is p entry page (entry.dirty || dirty) h o)
            (member_found s is p entry o h))
    | inl h ↦
        rw (h, put, member_missing s is p o h)
          (new-Ordered s is p page dirty o (member_missing s is p o h))
  ]
