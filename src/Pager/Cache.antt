-- ===== src/Pager/Cache.antt =====
-- src/pager/cache.rs: one shard of the page cache, with the list of its pages in the order of their
-- use kept in the entries. A cache is an array of shards, each under a lock of its own.
pub mod Links
pub mod Bypass
pub mod Order
pub mod Evict
pub mod Use
pub mod Lru
pub mod Marks
pub mod Calls
pub mod Contents
pub mod Shards
pub mod Whole
use nanostore.Prelude.{
  ℕ, zero, suc, ◌+◌, ◌-◌, ◌%◌, ◌≡◌, Bool, true, false, not, ◌||◌, Option, none, some, List, [], ◌∷◌,
  ◌++◌, leb, ◌==◌, if◌then◌else◌, ℕ_discrete, length,
}
use nanostore.Prelude.Maps.{get, insert, remove}

pub record CacheStats : Type 0 where
  pub hits : ℕ
  pub misses : ℕ
  pub evictions : ℕ
  pub flushes : ℕ
  pub current_size : ℕ
  pub dirty_pages : ℕ

-- The pages are of any type `P`; `page_id` of a page is a parameter of `put`.
pub record CacheEntry (P : Type 0) : Type 0 where
  pub page : P
  pub dirty : Bool
  pub prev : Option ℕ
  pub next : Option ℕ

pub record CacheShard (P : Type 0) : Type 0 where
  pub entries : List (ℕ × CacheEntry P)
  pub lru_head : Option ℕ
  pub lru_tail : Option ℕ
  pub stats : CacheStats
  pub capacity : ℕ

abbrev pub no_stats : CacheStats
no_stats = record {
  hits = 0;
  misses = 0;
  evictions = 0;
  flushes = 0;
  current_size = 0;
  dirty_pages = 0;
}

-- `link == Some(page_id)`
abbrev pub is_at : Option ℕ → ℕ → Bool
is_at none page_id = false
is_at (some id) page_id = id == page_id

-- `if self.lru_tail.is_none() { self.lru_tail = Some(page_id) }`
abbrev pub or_page : Option ℕ → ℕ → Option ℕ
or_page none page_id = some page_id
or_page (some id) page_id = some id

module _ {P : Type 0} where
  -- `NUM_SHARDS` of these, each with its share of the capacity
  abbrev pub new_shard : ℕ → CacheShard P
  new_shard capacity = record {
    entries = [];
    lru_head = none;
    lru_tail = none;
    stats = no_stats;
    capacity = capacity;
  }

  -- `if let Some(entry) = self.entries.get_mut(&id)`
  unfoldable pub modify :
      ℕ → (CacheEntry P → CacheEntry P) → List (ℕ × CacheEntry P) → List (ℕ × CacheEntry P)
  modify id f m = elim (get ℕ_discrete id m) [
    | none ↦ m
    | some entry ↦ insert ℕ_discrete id (f entry) m
  ]

  -- the same below `if let Some(id) = link`
  abbrev pub modify_at :
      Option ℕ → (CacheEntry P → CacheEntry P) → List (ℕ × CacheEntry P) → List (ℕ × CacheEntry P)
  modify_at none f m = m
  modify_at (some id) f m = modify id f m

  abbrev pub set_prev : Option ℕ → CacheEntry P → CacheEntry P
  set_prev prev entry = record entry { prev = prev }

  abbrev pub set_next : Option ℕ → CacheEntry P → CacheEntry P
  set_next next entry = record entry { next = next }

  -- the part of `move_to_front` that removes the entry from its position
  unfoldable pub unlink : CacheShard P → ℕ → CacheShard P
  unfolding modify
  unlink s page_id = elim (get ℕ_discrete page_id s.entries) [
    | none ↦ s
    | some entry ↦ record s {
      entries =
          modify_at entry.next (set_prev entry.prev)
            (modify_at entry.prev (set_next entry.next) s.entries);
      lru_tail = if is_at s.lru_tail page_id then entry.prev else s.lru_tail;
    }
  ]

  -- the part of `move_to_front` that adds the entry to the front
  unfoldable pub link_front : CacheShard P → ℕ → CacheShard P
  unfolding modify
  link_front s page_id = record s {
    entries =
        modify_at s.lru_head (set_prev (some page_id))
          (modify page_id (λ e. set_prev none (set_next s.lru_head e)) s.entries);
    lru_head = some page_id;
    lru_tail = or_page s.lru_tail page_id;
  }

  unfoldable pub move_to_front : CacheShard P → ℕ → CacheShard P
  unfolding unlink link_front
  move_to_front s page_id =
      if is_at s.lru_head page_id then s else link_front (unlink s page_id) page_id

  -- The statements of `remove_entry` after the entry is removed.
  unfoldable pub removed : CacheShard P → ℕ → CacheEntry P → Option P × CacheShard P
  unfolding modify
  removed s page_id entry =
      let rest = remove ℕ_discrete page_id s.entries in
      let entries =
        modify_at entry.next (set_prev entry.prev)
          (modify_at entry.prev (set_next entry.next) rest) in
      (
        if entry.dirty then some entry.page else none,
        record s {
          entries = entries;
          lru_head = elim entry.prev [ none ↦ entry.next | some prev_id ↦ s.lru_head ];
          lru_tail = elim entry.next [ none ↦ entry.prev | some next_id ↦ s.lru_tail ];
          stats = record (s.stats) {
            current_size = length entries;
            dirty_pages = if entry.dirty then s.stats.dirty_pages - 1 else s.stats.dirty_pages;
          };
        },
      )

  unfoldable pub remove_entry : CacheShard P → ℕ → Option P × CacheShard P
  unfolding removed
  remove_entry s page_id = elim (get ℕ_discrete page_id s.entries) [
    | none ↦ (none, s)
    | some entry ↦ removed s page_id entry
  ]

  unfoldable pub evict_lru : CacheShard P → Option P × CacheShard P
  unfolding remove_entry
  evict_lru s = elim s.lru_tail [
    | none ↦ (none, s)
    | some tail_id ↦
        remove_entry (record s { stats = record (s.stats) { evictions = s.stats.evictions + 1 } })
          tail_id
  ]

  -- `PageCache::get` below the shard's lock
  unfoldable pub get_page : CacheShard P → ℕ → Option P × CacheShard P
  unfolding move_to_front
  get_page s page_id = elim (get ℕ_discrete page_id s.entries) [
    | none ↦ (none, record s { stats = record (s.stats) { misses = s.stats.misses + 1 } })
    | some entry ↦ (
      some entry.page,
      move_to_front (record s { stats = record (s.stats) { hits = s.stats.hits + 1 } }) page_id,
    )
  ]

  -- the part of `put` that inserts a page that is not in the cache, after an eviction
  unfoldable pub insert_front : CacheShard P → ℕ → P → Bool → CacheShard P
  unfolding modify
  insert_front s page_id page dirty =
      let entry : CacheEntry P = record {
        page = page;
        dirty = dirty;
        prev = none;
        next = s.lru_head;
      } in
      let entries =
        modify_at s.lru_head (set_prev (some page_id))
          (insert ℕ_discrete page_id entry s.entries) in
      record s {
        entries = entries;
        lru_head = some page_id;
        lru_tail = or_page s.lru_tail page_id;
        stats = record (s.stats) {
          current_size = length entries;
          dirty_pages = if dirty then s.stats.dirty_pages + 1 else s.stats.dirty_pages;
        };
      }

  -- `PageCache::put` below the shard's lock
  unfoldable pub put : CacheShard P → ℕ → P → Bool → Option P × CacheShard P
  unfolding move_to_front evict_lru insert_front
  put s page_id page dirty = elim (get ℕ_discrete page_id s.entries) [
    | some entry ↦ (
      none,
      move_to_front
          (record s {
            entries =
                insert ℕ_discrete page_id
                  (record entry { page = page; dirty = entry.dirty || dirty }) s.entries;
          })
          page_id,
    )
    | none ↦
        let r = if leb s.capacity (length s.entries) then evict_lru s else (none, s) in
        (r.0, insert_front r.1 page_id page dirty)
  ]

  unfoldable pub contains : CacheShard P → ℕ → Bool
  contains s page_id = elim (get ℕ_discrete page_id s.entries) [ none ↦ false | some entry ↦ true ]

  unfoldable pub mark_dirty : CacheShard P → ℕ → Bool × CacheShard P
  mark_dirty s page_id = elim (get ℕ_discrete page_id s.entries) [
    | none ↦ (false, s)
    | some entry ↦ (
      true,
      if not entry.dirty
          then record s {
            entries = insert ℕ_discrete page_id (record entry { dirty = true }) s.entries;
            stats = record (s.stats) { dirty_pages = s.stats.dirty_pages + 1 };
          }
          else s,
    )
  ]

  unfoldable pub mark_clean : CacheShard P → ℕ → Bool × CacheShard P
  mark_clean s page_id = elim (get ℕ_discrete page_id s.entries) [
    | none ↦ (false, s)
    | some entry ↦ (
      true,
      if entry.dirty
          then record s {
            entries = insert ℕ_discrete page_id (record entry { dirty = false }) s.entries;
            stats = record (s.stats) {
              dirty_pages = s.stats.dirty_pages - 1;
              flushes = s.stats.flushes + 1;
            };
          }
          else s,
    )
  ]

  unfoldable pub is_dirty : CacheShard P → ℕ → Bool
  is_dirty s page_id = elim (get ℕ_discrete page_id s.entries) [
    | none ↦ false
    | some entry ↦ entry.dirty
  ]
