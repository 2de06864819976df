-- ===== src/Pager/Cache/Whole.antt =====
-- The methods of `PageCache` that visit every shard (src/pager/cache.rs).
use nanostore.Prelude.{
  ℕ, zero, suc, ◌+◌, ◌<◌, ◌≤◌, ◌≡◌, refl, ap, none, List, [], ◌∷◌, ◌++◌, ◌==◌, if◌then◌else◌, arith,
  length,
}
use nanostore.Pager.Cache.{CacheStats, CacheEntry, CacheShard, no_stats}
use nanostore.Pager.Cache.Shards.{PageCache, num_shards, size, size_below}

-- `+=` on each field
unfoldable pub add_stats : CacheStats → CacheStats → CacheStats
add_stats a b = record {
  hits = a.hits + b.hits;
  misses = a.misses + b.misses;
  evictions = a.evictions + b.evictions;
  flushes = a.flushes + b.flushes;
  current_size = a.current_size + b.current_size;
  dirty_pages = a.dirty_pages + b.dirty_pages;
}

-- `CacheStats::reset`
unfoldable pub reset : CacheStats → CacheStats
reset s = record s { hits = 0; misses = 0; evictions = 0; flushes = 0 }

module _ {P : Type 0} where
  -- `entries.iter().filter(..).map(..)`
  unfoldable pub dirty_of : List (ℕ × CacheEntry P) → List (ℕ × P)
  dirty_of [] = []
  dirty_of ((id, entry) ∷ entries) =
      let rest = dirty_of entries in if entry.dirty then (id, entry.page) ∷ rest else rest

  -- The loop of `get_dirty_pages`, over the first `n` shards.
  unfoldable pub dirty_below : PageCache P → ℕ → List (ℕ × P)
  dirty_below c zero = []
  dirty_below c (suc n) = dirty_below c n ++ dirty_of (c.shards n).entries

  unfoldable pub get_dirty_pages : PageCache P → List (ℕ × P)
  get_dirty_pages c = dirty_below c num_shards

  unfoldable pub clear_shard : CacheShard P → CacheShard P
  clear_shard shard = record shard {
    entries = [];
    lru_head = none;
    lru_tail = none;
    stats = record shard.stats { current_size = 0; dirty_pages = 0 };
  }

  abbrev pub put_shard : PageCache P → ℕ → CacheShard P → PageCache P
  put_shard c i shard = record c { shards = λ j. if i == j then shard else c.shards j }

  -- The loop of `clear`, over the first `n` shards.
  unfoldable pub clear_below : PageCache P → ℕ → List (ℕ × P) × PageCache P
  clear_below c zero = ([], c)
  clear_below c (suc n) =
      let (pages, d) = clear_below c n in
      (pages ++ dirty_of (d.shards n).entries, put_shard d n (clear_shard (d.shards n)))

  unfoldable pub clear : PageCache P → List (ℕ × P) × PageCache P
  clear c = clear_below c num_shards

  -- The loop of `stats`, over the first `n` shards.
  unfoldable pub stats_below : PageCache P → ℕ → CacheStats
  stats_below c zero = no_stats
  stats_below c (suc n) = add_stats (stats_below c n) (c.shards n).stats

  unfoldable pub stats : PageCache P → CacheStats
  stats c = stats_below c num_shards

  -- The loop of `reset_stats`, over the first `n` shards.
  unfoldable pub reset_below : PageCache P → ℕ → PageCache P
  reset_below c zero = c
  reset_below c (suc n) =
      let d = reset_below c n in
      put_shard d n (record (d.shards n) { stats = reset (d.shards n).stats })

  unfoldable pub reset_stats : PageCache P → PageCache P
  reset_stats c = reset_below c num_shards

  clear_below-rest : (c : PageCache P) (n i : ℕ) → n ≤ i → (clear_below c n).1.shards i ≡ c.shards i
  unfolding clear_below
  clear_below-rest c zero i h = refl
  clear_below-rest c (suc n) i h = ground (arith, clear_below-rest c n i)

  clear_below-first :
      (c : PageCache P) (n i : ℕ) → i < n → (clear_below c n).1.shards i ≡ clear_shard (c.shards i)
  unfolding clear_below
  clear_below-first c zero i h = absurd (omega arith)
  clear_below-first c (suc n) i h =
      ground (arith, clear_below-first c n i, ap clear_shard (clear_below-rest c n n (omega arith)))

  clear_below-dirty : (c : PageCache P) (n : ℕ) → (clear_below c n).0 ≡ dirty_below c n
  unfolding clear_below dirty_below
  clear_below-dirty c zero = refl
  clear_below-dirty c (suc n) =
      rw (clear_below-dirty c n, clear_below-rest c n n (omega arith)) refl

  size-zero :
      (c : PageCache P) (n : ℕ)
      → ((i : ℕ) → i < n → length (c.shards i).entries ≡ 0)
      → size_below c n ≡ 0
  unfolding size_below
  size-zero c zero h = refl
  size-zero c (suc n) h = omega (arith, h n (omega arith), size-zero c n (λ i l. h i (omega arith)))

  stats_dirty-zero :
      (c : PageCache P) (n : ℕ)
      → ((i : ℕ) → i < n → (c.shards i).stats.dirty_pages ≡ 0)
      → (stats_below c n).dirty_pages ≡ 0
  unfolding stats_below add_stats
  stats_dirty-zero c zero h = refl
  stats_dirty-zero c (suc n) h =
      omega (arith, h n (omega arith), stats_dirty-zero c n (λ i l. h i (omega arith)))

  -- Clearing a cache returns the pages that `get_dirty_pages` lists; each shard then holds no page, its
  -- list of use is empty, and its hits, misses, evictions and flushes are as before; and the cache has
  -- size 0 and counts no dirty page.
  pub clear_lem :
      (c : PageCache P) (i : ℕ)
      → i < num_shards
      → let s = c.shards i in
        let s' = (clear c).1.shards i in
        ((clear c).0 ≡ get_dirty_pages c)
        × (s'.entries ≡ [])
        × (s'.lru_head ≡ none)
        × (s'.lru_tail ≡ none)
        × (s'.stats ≡ record (s.stats) { current_size = 0; dirty_pages = 0 })
        × (size (clear c).1 ≡ 0)
        × ((stats (clear c).1).dirty_pages ≡ 0)
  unfolding clear get_dirty_pages size stats clear_shard
  clear_lem c i l =
      let cleared = clear_below-first c num_shards in
      (
        clear_below-dirty c num_shards,
        ap (λ s. s.entries) (cleared i l),
        ap (λ s. s.lru_head) (cleared i l),
        ap (λ s. s.lru_tail) (cleared i l),
        ap (λ s. s.stats) (cleared i l),
        size-zero (clear c).1 num_shards (λ j k. ap (λ s. length s.entries) (cleared j k)),
        stats_dirty-zero (clear c).1 num_shards
            (λ j k. ap (λ s. s.stats.dirty_pages) (cleared j k)),
      )
