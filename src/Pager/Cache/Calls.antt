-- ===== src/Pager/Cache/Calls.antt =====
-- Any calls on a cache shard (src/pager/cache.rs), one after the other under its lock.
use nanostore.Prelude.{
  ℕ, suc, ◌+◌, ◌≤◌, ◌<◌, ◌≡◌, refl, ap, ◌∙◌, Bool, true, false, none, List, [], ◌∷◌, ℕ_discrete,
  inl, inr, arith, Option-cases, Bool-cases, length, leb, if◌then◌else◌,
}
use mathlib.Core.Path.{subst}
use nanostore.Prelude.Maps.{get}
use nanostore.Prelude.Members.{member}
use nanostore.Pager.Cache.{
  CacheShard, new_shard, get_page, mark_dirty, mark_clean, put, evict_lru, remove_entry, removed,
  insert_front, move_to_front, unlink, link_front, is_at,
}
use nanostore.Pager.Cache.Order.{Ordered}
use nanostore.Pager.Cache.Marks.{
  mark_dirty-Ordered, mark_clean-Ordered, dropped-Ordered, mark_dirty-capacity, mark_clean-capacity,
}
use nanostore.Pager.Cache.Use.{without, all_but_last, order_read, order_put}
use nanostore.Pager.Cache.Lru.{get_page-Ordered, put-Ordered}

-- A call on a shard: a page is read, put with its dirty flag, marked, or removed.
pub data Call (P : Type 0) : Type 0 where
  read : ℕ → Call P
  write : ℕ → P → Bool → Call P
  soil clean drop : ℕ → Call P

length-without :
    (p : ℕ) (is : List ℕ) → member p is ≡ true → suc (length (without p is)) ≡ length is
unfolding without
length-without p [] h = absurd (ground arith)
length-without p (i ∷ is) h = ground (arith, length-without p is)

length-without_le : (p : ℕ) (is : List ℕ) → length (without p is) ≤ length is
unfolding without
length-without_le p [] = omega arith
length-without_le p (i ∷ is) = ground (arith, length-without_le p is)

length-all_but_last : (i : ℕ) (is : List ℕ) → suc (length (all_but_last (i ∷ is))) ≡ length (i ∷ is)
unfolding all_but_last
length-all_but_last i [] = refl
length-all_but_last i (j ∷ is) = ap suc (length-all_but_last j is)

module _ {P : Type 0} where
  unfoldable pub after : CacheShard P → Call P → CacheShard P
  unfolding get_page put mark_dirty mark_clean remove_entry
  after s (read p) = (get_page s p).1
  after s (write p page dirty) = (put s p page dirty).1
  after s (soil p) = (mark_dirty s p).1
  after s (clean p) = (mark_clean s p).1
  after s (drop p) = (remove_entry s p).1

  unfoldable pub after_all : CacheShard P → List (Call P) → CacheShard P
  unfolding after
  after_all s [] = s
  after_all s (c ∷ cs) = after_all (after s c) cs

  unfoldable pub order_after : ℕ → List ℕ → Call P → List ℕ
  unfolding order_read order_put without
  order_after capacity is (read p) = order_read p is
  order_after capacity is (write p page dirty) = order_put capacity p is
  order_after capacity is (soil p) = is
  order_after capacity is (clean p) = is
  order_after capacity is (drop p) = without p is

  unfoldable pub order_all : ℕ → List ℕ → List (Call P) → List ℕ
  unfolding order_after
  order_all capacity is [] = is
  order_all capacity is (c ∷ cs) = order_all capacity (order_after capacity is c) cs

  order_after-le :
      (capacity : ℕ) (is : List ℕ) (c : Call P)
      → 0 < capacity
      → length is ≤ capacity
      → length (order_after capacity is c) ≤ capacity
  unfolding order_after order_read order_put
  order_after-le capacity is (read p) pos h = ground (arith, length-without p is)
  order_after-le capacity [] (write p page dirty) pos h = ground arith
  order_after-le capacity (i ∷ is) (write p page dirty) pos h =
      ground (arith, length-without p (i ∷ is), length-all_but_last i is)
  order_after-le capacity is (soil p) pos h = h
  order_after-le capacity is (clean p) pos h = h
  order_after-le capacity is (drop p) pos h = omega (arith, h, length-without_le p is)

  unlink-capacity : (s : CacheShard P) (p : ℕ) → (unlink s p).capacity ≡ s.capacity
  unfolding unlink
  unlink-capacity s p = elim (Option-cases (get ℕ_discrete p s.entries)) [
    | inl h ↦ rw (h, unlink) refl
    | inr (e, h) ↦ rw (h, unlink) refl
  ]

  move_to_front-capacity : (s : CacheShard P) (p : ℕ) → (move_to_front s p).capacity ≡ s.capacity
  unfolding move_to_front link_front
  move_to_front-capacity s p = elim (Bool-cases (is_at s.lru_head p)) [
    | inl h ↦ rw h refl
    | inr h ↦ rw h (unlink-capacity s p)
  ]

  remove_entry-capacity : (s : CacheShard P) (p : ℕ) → (remove_entry s p).1.capacity ≡ s.capacity
  unfolding remove_entry removed
  remove_entry-capacity s p = elim (Option-cases (get ℕ_discrete p s.entries)) [
    | inl h ↦ rw (h, remove_entry) refl
    | inr (e, h) ↦ rw (h, remove_entry) refl
  ]

  evict_lru-capacity : (s : CacheShard P) → (evict_lru s).1.capacity ≡ s.capacity
  unfolding evict_lru
  evict_lru-capacity s = elim (Option-cases s.lru_tail) [
    | inl h ↦
        let nothing : evict_lru s ≡ (none, s) = ground (arith, h) in ap (λ r. r.1.capacity) nothing
    | inr (p, h) ↦
        let t : CacheShard P = record s {
          stats = record (s.stats) { evictions = s.stats.evictions + 1 };
        } in
        let at_tail : evict_lru s ≡ remove_entry t p = ground (arith, h) in
        ap (λ r. r.1.capacity) at_tail ∙ remove_entry-capacity t p
  ]

  put-capacity :
      (s : CacheShard P) (p : ℕ) (page : P) (dirty : Bool)
      → (put s p page dirty).1.capacity ≡ s.capacity
  unfolding put insert_front
  put-capacity s p page dirty = elim (Option-cases (get ℕ_discrete p s.entries)) [
    | inl h ↦ rw (h, put) (room (leb s.capacity (length s.entries)))
    | inr (e, h) ↦ rw (h, put) (move_to_front-capacity _ p)
  ]
    where
      room : (full : Bool) → (if full then evict_lru s else (none, s)).1.capacity ≡ s.capacity
      room true = evict_lru-capacity s
      room false = refl

  get_page-capacity : (s : CacheShard P) (p : ℕ) → (get_page s p).1.capacity ≡ s.capacity
  unfolding get_page
  get_page-capacity s p = elim (Option-cases (get ℕ_discrete p s.entries)) [
    | inl h ↦ rw (h, get_page) refl
    | inr (e, h) ↦ rw (h, get_page) (move_to_front-capacity _ p)
  ]

  after-Ordered :
      (s : CacheShard P) (is : List ℕ) (c : Call P)
      → Ordered s is
      → Ordered (after s c) (order_after s.capacity is c)
  unfolding after order_after
  after-Ordered s is (read p) o = get_page-Ordered s is p o
  after-Ordered s is (write p page dirty) o = put-Ordered s is p page dirty o
  after-Ordered s is (soil p) o = mark_dirty-Ordered s is p o
  after-Ordered s is (clean p) o = mark_clean-Ordered s is p o
  after-Ordered s is (drop p) o = dropped-Ordered s is p o

  after-capacity : (s : CacheShard P) (c : Call P) → (after s c).capacity ≡ s.capacity
  unfolding after
  after-capacity s (read p) = get_page-capacity s p
  after-capacity s (write p page dirty) = put-capacity s p page dirty
  after-capacity s (soil p) = mark_dirty-capacity s p
  after-capacity s (clean p) = mark_clean-capacity s p
  after-capacity s (drop p) = remove_entry-capacity s p

  after_all-Ordered :
      (capacity : ℕ) (cs : List (Call P)) (s : CacheShard P) (is : List ℕ)
      → s.capacity ≡ capacity
      → 0 < capacity
      → length is ≤ capacity
      → Ordered s is
      → Ordered (after_all s cs) (order_all capacity is cs)
        × (length (order_all capacity is cs) ≤ capacity)
  unfolding after_all order_all
  after_all-Ordered capacity [] s is e pos h o = (o, h)
  after_all-Ordered capacity (c ∷ cs) s is e pos h o =
      after_all-Ordered capacity cs (after s c) (order_after capacity is c) (after-capacity s c ∙ e)
        pos (order_after-le capacity is c pos h)
        (subst (λ n. Ordered (after s c) (order_after n is c)) e (after-Ordered s is c o))

  new_shard-Ordered : (capacity : ℕ) → Ordered {P = P} (new_shard capacity) []
  unfolding get
  new_shard-Ordered capacity = record {
    distinct = tt;
    run = tt;
    head_is = refl;
    tail_is = refl;
    absent = λ i n. refl;
    is_map = tt;
    counted = refl;
  }

  -- Whatever pages are read from a new shard with room for a page, put into it, marked and removed,
  -- its entries are linked in the order of their last use, as a plain list of identifiers records
  -- it: a read or a put brings a page to the front, a put of a new page into a full shard drops the
  -- last one, and a mark moves none. The shard never holds more pages than its capacity.
  pub cache_order_lem :
      (capacity : ℕ) (cs : List (Call P))
      → 0 < capacity
      → let s = after_all (new_shard capacity) cs in
        Ordered s (order_all capacity [] cs) × (length s.entries ≤ capacity)
  cache_order_lem capacity cs pos =
      let (o, h) =
        after_all-Ordered capacity cs (new_shard capacity) [] refl pos (omega arith)
          (new_shard-Ordered capacity) in
      (o, omega (arith, o.counted, h))
