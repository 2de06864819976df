-- ===== src/Pager/Cache/Shards.antt =====
-- The array of shards of `PageCache` (src/pager/cache.rs): a page belongs to the shard of its number.
use nanostore.Prelude.{ℕ, zero, suc, ◌+◌, ◌-◌, ◌/◌, ◌%◌, List, [], ◌∷◌, ◌==◌, length, if◌then◌else◌}
use nanostore.Pager.Cache.{CacheShard, new_shard}
use nanostore.Pager.Cache.Calls.{Call, read, write, soil, clean, drop, after, order_all}

-- `NUM_SHARDS`
abbrev pub num_shards : ℕ
num_shards = 32

abbrev pub shard_index : ℕ → ℕ
shard_index page_id = page_id % num_shards

-- `div_ceil`
unfoldable pub div_ceil : ℕ → ℕ → ℕ
div_ceil a b = (a + b - 1) / b

-- The array has `num_shards` shards, at the indices below.
pub record PageCache (P : Type 0) : Type 0 where
  pub capacity : ℕ
  pub shards : ℕ → CacheShard P

module _ {P : Type 0} where
  unfoldable pub new : ℕ → PageCache P
  new capacity = record {
    capacity = capacity;
    shards = λ i. new_shard (div_ceil capacity num_shards);
  }

  abbrev pub page_of : Call P → ℕ
  page_of (read p) = p
  page_of (write p page dirty) = p
  page_of (soil p) = p
  page_of (clean p) = p
  page_of (drop p) = p

  -- A method of the cache: the call on the shard of its page.
  unfoldable pub call : PageCache P → Call P → PageCache P
  unfolding after
  call c x =
      let i = shard_index (page_of x) in
      record c { shards = λ j. if i == j then after (c.shards i) x else c.shards j }

  unfoldable pub call_all : PageCache P → List (Call P) → PageCache P
  unfolding call
  call_all c [] = c
  call_all c (x ∷ xs) = call_all (call c x) xs

  unfoldable pub size_below : PageCache P → ℕ → ℕ
  size_below c zero = 0
  size_below c (suc n) = length (c.shards n).entries + size_below c n

  -- `size`, the sum over the shards
  unfoldable pub size : PageCache P → ℕ
  unfolding size_below
  size c = size_below c num_shards

  -- The calls on the pages of one shard: those whose number leaves the remainder `i`.
  unfoldable pub calls_of : ℕ → List (Call P) → List (Call P)
  calls_of i [] = []
  calls_of i (x ∷ xs) = if page_of x % 32 == i then x ∷ calls_of i xs else calls_of i xs

  -- The pages that the plain lists of the first `n` shards hold.
  abbrev pub pages_below : ℕ → List (Call P) → ℕ → ℕ
  pages_below share xs zero = 0
  pages_below share xs (suc n) =
      length (order_all share [] (calls_of n xs)) + pages_below share xs n
