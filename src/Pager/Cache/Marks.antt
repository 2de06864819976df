-- ===== src/Pager/Cache/Marks.antt =====
-- Marking and removing pages of a cache shard (src/pager/cache.rs), and its order.
use mathlib.Core.Path.{subst}
use nanostore.Prelude.{
  ℕ, ◌+◌, ◌-◌, ◌≡◌, refl, sym, Bool, true, false, not, some, List, [], ◌∷◌, ℕ_discrete, inl, inr,
  arith, Option-cases, Bool-cases, if◌then◌else◌,
}
use nanostore.Prelude.Maps.{get, insert}
use nanostore.Prelude.Members.{member, In-of_member}
use nanostore.Pager.Cache.{CacheEntry, CacheShard, mark_dirty, mark_clean, remove_entry}
use nanostore.Pager.Cache.Order.{Ordered}
use nanostore.Pager.Cache.Evict.{remove_entry-Ordered}
use nanostore.Pager.Cache.Use.{without, split_at}
use nanostore.Pager.Cache.Lru.{member_missing, member_found, replaced-Ordered, Ordered-again}

without_missing : (p : ℕ) (is : List ℕ) → member p is ≡ false → without p is ≡ is
unfolding without
without_missing p [] h = refl
without_missing p (i ∷ is) h = ground (arith, without_missing p is)

module _ {P : Type 0} where
  pub mark_dirty-Ordered :
      (s : CacheShard P) (is : List ℕ) (p : ℕ) → Ordered s is → Ordered (mark_dirty s p).1 is
  unfolding mark_dirty
  mark_dirty-Ordered s is p o = elim (Option-cases (get ℕ_discrete p s.entries)) [
    | inl h ↦ rw (h, mark_dirty) o
    | inr (e, h) ↦ rw (h, mark_dirty) (marked e h (not e.dirty))
  ]
    where
      marked :
          (e : CacheEntry P)
          → get ℕ_discrete p s.entries ≡ some e
          → (changes : Bool)
          → Ordered
              (if changes
                then record s {
                  entries = insert ℕ_discrete p (record e { dirty = true }) s.entries;
                  stats = record (s.stats) { dirty_pages = s.stats.dirty_pages + 1 };
                }
                else s)
              is
      marked e h true =
          Ordered-again _ _ is refl refl refl (replaced-Ordered s is p e e.page true h o)
      marked e h false = o

  pub mark_clean-Ordered :
      (s : CacheShard P) (is : List ℕ) (p : ℕ) → Ordered s is → Ordered (mark_clean s p).1 is
  unfolding mark_clean
  mark_clean-Ordered s is p o = elim (Option-cases (get ℕ_discrete p s.entries)) [
    | inl h ↦ rw (h, mark_clean) o
    | inr (e, h) ↦ rw (h, mark_clean) (marked e h e.dirty)
  ]
    where
      marked :
          (e : CacheEntry P)
          → get ℕ_discrete p s.entries ≡ some e
          → (changes : Bool)
          → Ordered
              (if changes
                then record s {
                  entries = insert ℕ_discrete p (record e { dirty = false }) s.entries;
                  stats = record (s.stats) {
                    dirty_pages = s.stats.dirty_pages - 1;
                    flushes = s.stats.flushes + 1;
                  };
                }
                else s)
              is
      marked e h true =
          Ordered-again _ _ is refl refl refl (replaced-Ordered s is p e e.page false h o)
      marked e h false = o

  pub dropped-Ordered :
      (s : CacheShard P) (is : List ℕ) (p : ℕ)
      → Ordered s is
      → Ordered (remove_entry s p).1 (without p is)
  unfolding remove_entry
  dropped-Ordered s is p o = elim (Option-cases (get ℕ_discrete p s.entries)) [
    | inl h ↦ rw (h, remove_entry, without_missing p is (member_missing s is p o h)) o
    | inr (e, h) ↦
        let (us, vs, q, w) = split_at p is (In-of_member p is (member_found s is p e o h)) in
        subst (Ordered (remove_entry s p).1) (sym w)
          (remove_entry-Ordered s us vs p (subst (Ordered s) q o))
  ]

  pub mark_dirty-capacity : (s : CacheShard P) (p : ℕ) → (mark_dirty s p).1.capacity ≡ s.capacity
  unfolding mark_dirty
  mark_dirty-capacity s p = elim (Option-cases (get ℕ_discrete p s.entries)) [
    | inl h ↦ rw (h, mark_dirty) refl
    | inr (e, h) ↦ elim (Bool-cases e.dirty) [
      | inl d ↦ rw (h, mark_dirty, d) refl
      | inr d ↦ rw (h, mark_dirty, d) refl
    ]
  ]

  pub mark_clean-capacity : (s : CacheShard P) (p : ℕ) → (mark_clean s p).1.capacity ≡ s.capacity
  unfolding mark_clean
  mark_clean-capacity s p = elim (Option-cases (get ℕ_discrete p s.entries)) [
    | inl h ↦ rw (h, mark_clean) refl
    | inr (e, h) ↦ elim (Bool-cases e.dirty) [
      | inl d ↦ rw (h, mark_clean, d) refl
      | inr d ↦ rw (h, mark_clean, d) refl
    ]
  ]
