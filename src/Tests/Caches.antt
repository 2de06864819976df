-- ===== src/Tests/Caches.antt =====
-- Calls on a cache shard (src/pager/cache.rs), with numbers for pages.
use nanostore.Prelude.{
  ℕ, ◌≡◌, ◌≤◌, refl, true, false, ◌||◌, some, List, [], ◌∷◌, arith, length, ℕ_discrete,
}
use nanostore.Prelude.Maps.{get, insert, remove}
use nanostore.Pager.Cache.{CacheShard, new_shard, put, modify}
use nanostore.Pager.Cache.Bypass.{held}
use nanostore.Pager.Cache.Order.{Ordered}
use nanostore.Pager.Cache.Calls.{Call, read, write, soil, after_all, order_all, cache_order_lem}
use nanostore.Pager.Cache.Contents.{Safe, was_dirty, put_lem}

-- Page 1 is used again before page 3 comes, so that page 2 is evicted.
abbrev cache_calls : List (Call ℕ)
cache_calls = write 1 10 false ∷ write 2 20 true ∷ read 1 ∷ write 3 30 false ∷ soil 3 ∷ []

order_of_use : order_all 2 [] cache_calls ≡ 3 ∷ 1 ∷ []
unfolding order_all
order_of_use = refl

cache_order_lem_example :
    let s = after_all (new_shard 2) cache_calls in
    Ordered s (order_all 2 [] cache_calls) × (length s.entries ≤ 2)
cache_order_lem_example = cache_order_lem 2 cache_calls (ground arith)

-- A shard with page 1 clean.
abbrev clean_one : CacheShard ℕ
clean_one = after_all (new_shard 2) (write 1 10 false ∷ [])

-- A full shard, in which the dirty page 2 was used before page 1.
abbrev full_shard : CacheShard ℕ
full_shard = after_all (new_shard 2) (write 2 20 true ∷ write 1 10 false ∷ [])

full_shard-held : held (get ℕ_discrete 2 full_shard.entries) ≡ some (20, true)
unfolding after_all get insert ℕ_discrete modify
full_shard-held = refl

put_lem_example :
    (held (get ℕ_discrete 3 (put full_shard 3 30 false).1.entries)
      ≡ some (30, was_dirty (held (get ℕ_discrete 3 full_shard.entries)) || false))
    × Safe (put full_shard 3 30 false) 2 20
put_lem_example = put_lem full_shard 3 2 30 20 false (λ h. ground arith) full_shard-held

-- The evicted page is returned.
evicted_two : (put full_shard 3 30 false).0 ≡ some 20
unfolding after_all put get insert remove ℕ_discrete modify
evicted_two = refl
