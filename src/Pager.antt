-- ===== src/Pager.antt =====
-- src/pager: configuration, pins, the free list, and the cache.
pub mod Config
pub mod PinTable
pub mod FreeList
pub mod Cache
