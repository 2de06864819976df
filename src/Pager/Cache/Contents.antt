-- ===== src/Pager/Cache/Contents.antt =====
-- What a cache shard (src/pager/cache.rs) holds of its pages when others are put into it.
use mathlib.Core.Path.{subst}
use nanostore.Prelude.{
  ℕ, ◌+◌, ◌≡◌, ◌≢◌, refl, ap, sym, ◌∙◌, Bool, true, false, ◌||◌, Option, none, some, ◌==◌,
  ℕ_discrete, inl, inr, ◌⊎◌, arith, Option-cases, Bool-cases, length, leb, if◌then◌else◌,
}
use nanostore.Prelude.Maps.{get, insert, remove, get-insert, get-remove}
use nanostore.Pager.Cache.{
  CacheEntry, CacheShard, put, evict_lru, remove_entry, removed, insert_front, move_to_front,
  unlink, link_front, is_at, modify_at, set_prev, set_next,
}
use nanostore.Pager.Cache.Links.{Entries}
use nanostore.Pager.Cache.Bypass.{held, Keeps, Keeps-refl, Keeps-trans, modify_at-Keeps}
use nanostore.Pager.Cache.Order.{fronted-Keeps}

module _ {P : Type 0} where
  -- The links of two neighbors change nothing that is held.
  linked-Keeps :
      (prev next : Option ℕ) (m : Entries P)
      → Keeps m (modify_at next (set_prev prev) (modify_at prev (set_next next) m))
  linked-Keeps prev next m =
      let m₁ = modify_at prev (set_next next) m in
      Keeps-trans m m₁ _ (modify_at-Keeps prev (set_next next) m (λ e. refl))
        (modify_at-Keeps next (set_prev prev) m₁ (λ e. refl))

  unlink-Keeps : (s : CacheShard P) (p : ℕ) → Keeps s.entries (unlink s p).entries
  unfolding unlink
  unlink-Keeps s p = elim (Option-cases (get ℕ_discrete p s.entries)) [
    | inl h ↦ rw (h, unlink) (Keeps-refl s.entries)
    | inr (e, h) ↦ rw (h, unlink) (linked-Keeps e.prev e.next s.entries)
  ]

  move_to_front-Keeps : (s : CacheShard P) (p : ℕ) → Keeps s.entries (move_to_front s p).entries
  unfolding move_to_front link_front
  move_to_front-Keeps s p = elim (Bool-cases (is_at s.lru_head p)) [
    | inl h ↦ rw h (Keeps-refl s.entries)
    | inr h ↦ rw h (
        Keeps-trans s.entries (unlink s p).entries _ (unlink-Keeps s p)
          (fronted-Keeps (unlink s p).lru_head p (unlink s p).entries))
  ]

  -- The dirty page `x` at `q` is in the shard still, or was returned.
  abbrev pub Safe : Option P × CacheShard P → ℕ → P → Type 0
  Safe r q x = (held (get ℕ_discrete q r.1.entries) ≡ some (x, true)) ⊎ (r.0 ≡ some x)

  removed-Safe :
      (s : CacheShard P) (p q : ℕ) (e : CacheEntry P) (x : P)
      → get ℕ_discrete p s.entries ≡ some e
      → held (get ℕ_discrete q s.entries) ≡ some (x, true)
      → Safe (removed s p e) q x
  unfolding removed
  removed-Safe s p q e x found h = elim (ℕ_discrete p q) [
    | yes same ↦ inr (ground (arith, found, h, same))
    | no other ↦
        let k = linked-Keeps e.prev e.next (remove ℕ_discrete p s.entries) in
        inl (k.same_held q ∙ ground (arith, get-remove ℕ_discrete q p s.entries, other, h))
  ]

  remove_entry-Safe :
      (s : CacheShard P) (p q : ℕ) (x : P)
      → held (get ℕ_discrete q s.entries) ≡ some (x, true)
      → Safe (remove_entry s p) q x
  unfolding remove_entry
  remove_entry-Safe s p q x h = elim (Option-cases (get ℕ_discrete p s.entries)) [
    | inl f ↦ rw (f, remove_entry) (inl h)
    | inr (e, f) ↦ rw (f, remove_entry) (removed-Safe s p q e x f h)
  ]

  evict_lru-Safe :
      (s : CacheShard P) (q : ℕ) (x : P)
      → held (get ℕ_discrete q s.entries) ≡ some (x, true)
      → Safe (evict_lru s) q x
  unfolding evict_lru
  evict_lru-Safe s q x h = elim (Option-cases s.lru_tail) [
    | inl f ↦
        let nothing : evict_lru s ≡ (none, s) = ground (arith, f) in
        subst (λ r. Safe r q x) (sym nothing) (inl h)
    | inr (p, f) ↦
        let t : CacheShard P = record s {
          stats = record (s.stats) { evictions = s.stats.evictions + 1 };
        } in
        let at_tail : evict_lru s ≡ remove_entry t p = ground (arith, f) in
        subst (λ r. Safe r q x) (sym at_tail) (remove_entry-Safe t p q x h)
  ]

  held-insert_front :
      (s : CacheShard P) (p q : ℕ) (page : P) (dirty : Bool)
      → held (get ℕ_discrete q (insert_front s p page dirty).entries)
        ≡ (if p == q then some (page, dirty) else held (get ℕ_discrete q s.entries))
  unfolding insert_front
  held-insert_front s p q page dirty =
      let e : CacheEntry P = record {
        page = page;
        dirty = dirty;
        prev = none;
        next = s.lru_head;
      } in
      let m = insert ℕ_discrete p e s.entries in
      let k = modify_at-Keeps s.lru_head (set_prev (some p)) m (λ e. refl) in
      k.same_held q ∙ ground (arith, get-insert ℕ_discrete q p e s.entries)

  -- Whether a page is dirty, if it is there.
  abbrev pub was_dirty : Option (P × Bool) → Bool
  was_dirty none = false
  was_dirty (some x) = x.1

  -- What `put` makes room with, and the entry that it overwrites a page with.
  abbrev room : CacheShard P → Option P × CacheShard P
  room s = if leb s.capacity (length s.entries) then evict_lru s else (none, s)

  abbrev overwritten : CacheShard P → ℕ → CacheEntry P → P → Bool → CacheShard P
  overwritten s p e page dirty = record s {
    entries = insert ℕ_discrete p (record e { page = page; dirty = e.dirty || dirty }) s.entries;
  }

  put-new :
      (s : CacheShard P) (p : ℕ) (page : P) (dirty : Bool)
      → get ℕ_discrete p s.entries ≡ none
      → put s p page dirty ≡ ((room s).0, insert_front (room s).1 p page dirty)
  unfolding put
  put-new s p page dirty h = rw (h, put) refl

  put-found :
      (s : CacheShard P) (p : ℕ) (page : P) (dirty : Bool) (e : CacheEntry P)
      → get ℕ_discrete p s.entries ≡ some e
      → put s p page dirty ≡ (none, move_to_front (overwritten s p e page dirty) p)
  unfolding put
  put-found s p page dirty e h = rw (h, put) refl

  -- What is put is held, and dirty if the put or the page that it replaces was.
  put-held :
      (s : CacheShard P) (p : ℕ) (page : P) (dirty : Bool)
      → held (get ℕ_discrete p (put s p page dirty).1.entries)
        ≡ some (page, was_dirty (held (get ℕ_discrete p s.entries)) || dirty)
  put-held s p page dirty = elim (Option-cases (get ℕ_discrete p s.entries)) [
    | inl h ↦
        ap (λ r. held (get ℕ_discrete p r.1.entries)) (put-new s p page dirty h)
        ∙ held-insert_front (room s).1 p p page dirty
        ∙ ground (arith, h)
    | inr (e, h) ↦
        let t = overwritten s p e page dirty in
        let new_entry : CacheEntry P = record e { page = page; dirty = e.dirty || dirty } in
        ap (λ r. held (get ℕ_discrete p r.1.entries)) (put-found s p page dirty e h)
        ∙ (move_to_front-Keeps t p).same_held p
        ∙ ground (arith, h, get-insert ℕ_discrete p p new_entry s.entries)
  ]

  room-Safe :
      (s : CacheShard P) (q : ℕ) (x : P) (full : Bool)
      → held (get ℕ_discrete q s.entries) ≡ some (x, true)
      → Safe (if full then evict_lru s else (none, s)) q x
  room-Safe s q x true h = evict_lru-Safe s q x h
  room-Safe s q x false h = inl h

  put-Safe :
      (s : CacheShard P) (p q : ℕ) (page x : P) (dirty : Bool)
      → p ≢ q
      → held (get ℕ_discrete q s.entries) ≡ some (x, true)
      → Safe (put s p page dirty) q x
  put-Safe s p q page x dirty other h = elim (Option-cases (get ℕ_discrete p s.entries)) [
    | inl f ↦
        subst (λ r. Safe r q x) (sym (put-new s p page dirty f))
          (elim (room-Safe s q x (leb s.capacity (length s.entries)) h) [
            | inl kept ↦
                inl (held-insert_front (room s).1 p q page dirty ∙ ground (arith, other, kept))
            | inr given ↦ inr given
          ])
    | inr (e, f) ↦
        let t = overwritten s p e page dirty in
        let new_entry : CacheEntry P = record e { page = page; dirty = e.dirty || dirty } in
        subst (λ r. Safe r q x) (sym (put-found s p page dirty e f))
          (inl (
            (move_to_front-Keeps t p).same_held q
            ∙ ground (arith, get-insert ℕ_discrete q p new_entry s.entries, other, h)))
  ]

  -- After a put of a page the shard holds it, dirty if the put says so or the page that it replaces
  -- was; and another page that was dirty is held as it was, dirty still, or is the page that the put
  -- returns.
  pub put_lem :
      (s : CacheShard P) (p q : ℕ) (page x : P) (dirty : Bool)
      → p ≢ q
      → held (get ℕ_discrete q s.entries) ≡ some (x, true)
      → (held (get ℕ_discrete p (put s p page dirty).1.entries)
          ≡ some (page, was_dirty (held (get ℕ_discrete p s.entries)) || dirty))
        × Safe (put s p page dirty) q x
  put_lem s p q page x dirty other h =
      (put-held s p page dirty, put-Safe s p q page x dirty other h)

  unlink-stats : (s : CacheShard P) (p : ℕ) → (unlink s p).stats ≡ s.stats
  unfolding unlink
  unlink-stats s p = elim (Option-cases (get ℕ_discrete p s.entries)) [
    | inl h ↦ rw (h, unlink) refl
    | inr (e, h) ↦ rw (h, unlink) refl
  ]

  move_to_front-stats : (s : CacheShard P) (p : ℕ) → (move_to_front s p).stats ≡ s.stats
  unfolding move_to_front link_front
  move_to_front-stats s p = elim (Bool-cases (is_at s.lru_head p)) [
    | inl h ↦ rw h refl
    | inr h ↦ rw h (unlink-stats s p)
  ]
