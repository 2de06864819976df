-- ===== src/Tests/Shards.antt =====
-- A cache of several shards (src/pager/cache.rs), with numbers for pages.
use nanostore.Prelude.{ℕ, ◌≡◌, refl, true, false, none, List, [], ◌∷◌, arith, ℕ_discrete}
use nanostore.Prelude.Maps.{get, insert, remove}
use nanostore.Pager.Cache.{modify}
use nanostore.Pager.Cache.Calls.{Call, write}
use nanostore.Pager.Cache.Whole.{dirty_of, dirty_below, get_dirty_pages, clear, stats, clear_lem}
use nanostore.Pager.Cache.Shards.{div_ceil, new, call_all, size}

-- Pages 1 and 33 share a shard, page 2 has another.
abbrev shard_calls : List (Call ℕ)
shard_calls = write 1 10 false ∷ write 33 330 true ∷ write 2 20 false ∷ []

-- With a capacity of one page the cache holds two.
over_capacity : size (call_all (new 1) shard_calls) ≡ 2
unfolding size call_all new div_ceil get insert modify remove ℕ_discrete
over_capacity = refl

-- Page 33 is dirty, and its shard holds page 1 too.
dirty_33 : get_dirty_pages (call_all (new 64) shard_calls) ≡ (33, 330) ∷ []
unfolding get_dirty_pages dirty_below dirty_of call_all new div_ceil get insert modify remove
    ℕ_discrete
dirty_33 = refl

clear_lem_example :
    let c = call_all (new 64) shard_calls in
    let s = c.shards 1 in
    let s' = (clear c).1.shards 1 in
    ((clear c).0 ≡ get_dirty_pages c)
    × (s'.entries ≡ [])
    × (s'.lru_head ≡ none)
    × (s'.lru_tail ≡ none)
    × (s'.stats ≡ record (s.stats) { current_size = 0; dirty_pages = 0 })
    × (size (clear c).1 ≡ 0)
    × ((stats (clear c).1).dirty_pages ≡ 0)
clear_lem_example = clear_lem (call_all (new 64) shard_calls) 1 (ground arith)
