-- ===== src/Lib.antt =====
-- Nanostore: write-ahead log, recovery, snapshots, versions, locks and page bookkeeping.
--
-- Nanostore is an embedded database. A transaction (src/txn/transaction.rs) takes a snapshot
-- (src/snap.rs), locks the keys that it writes (src/txn/conflict.rs), and logs its begin, its writes
-- and its commit as records (src/wal/record.rs). Its writes become versions in front of the chain of
-- their key (src/txn/version.rs), whose large values are references to pages (src/types.rs). After a
-- crash, recovery (src/wal/recovery.rs) reads the records back and says which writes to restore.
-- Vacuuming removes versions that no snapshot reads. Below it the pager (src/pager) keeps pages: its
-- configuration, the pins of pages in use, the free ones, and a cache of pages.
--
-- The files, and the code that they model:
-- - Types: `ValueRef` of src/types.rs; its bytes in Types/RoundTrip.
-- - Snap: `Snapshot` of src/snap.rs; what is visible in Snap/Visible.
-- - Txn/Version: src/txn/version.rs, each function under its own name. A chain is a list of versions
--   with at least one; `vacuum` returns the chain that the source leaves in `self`. The order of a
--   chain and the specification of vacuuming are in Version/Chain, the proofs in Version/Vacuum and
--   Version/Reads.
-- - Txn/Conflict: `ConflictDetector` of src/txn/conflict.rs. `lock_for_write` is what `put` and `delete`
--   of src/txn/transaction.rs do under the detector's mutex. Sequences of such calls and of releases
--   stand for all interleavings of transactions (Conflict/Locks).
-- - Txn/Deadlock: `DeadlockDetector` of src/txn/conflict.rs. The depth-first search runs on fuel, one
--   more than there are transactions in the graph, and a search that ran out would be `stuck`; Walk
--   defines cycles, Dfs the invariant of the search, its children the preservation, and Detect what
--   the search finds.
-- - Txn/Transaction: `Transaction` of src/txn/transaction.rs over a parameter for the table engines
--   (`Tables`); `get` is `lookup`, `put` and `delete` are `put_key` and `delete_key`. Txn/Transaction/Commit
--   has `commit`, with one definition for the rest of the function behind each call that can fail, and
--   `rollback`; Promise states what a commit leaves, Verdict (over Logged and Applied) proves it, Writes and Reads what a transaction reads.
-- - Pager/Config: the codes and page sizes of src/pager/config.rs.
-- - Pager/PinTable: src/pager/pin_table.rs. Every call holds the table's lock, so that threads are
--   sequences of calls (PinTable/Guards).
-- - Pager/FreeList: src/pager/freelist.rs. `SegQueue` of the crate crossbeam is a parameter: its
--   operations, and as `IsFifo` its documented order. Draining runs on fuel, one more than the queue
--   has pages. Calls are taken one after the other.
-- - Pager/Cache: one shard of src/pager/cache.rs; `get` is `get_page`, and the methods of `PageCache` are
--   taken below the shard's lock. Pages are of any type. Cache/Links and Cache/Bypass treat runs of
--   linked entries; Cache/Order, Cache/Evict, Cache/Use, Cache/Lru and Cache/Marks the order of use;
--   Cache/Calls any sequence of calls; Cache/Contents the pages that are held. Cache/Shards has the
--   array of 32 shards, Cache/Whole the methods that visit all of them.
-- - Wal/Error, Wal/Record, Wal/Record/Frame: src/wal/error.rs and src/wal/record.rs. The crates for
--   SHA-256, LZ4, Zstd and AES-256-GCM are parameters (`Crates`), with the digest's length and the
--   return of what was compressed or encrypted as hypotheses (`IsSound`); the random nonce is an
--   argument.
-- - Wal/Recovery: `WalRecovery` of src/wal/recovery.rs. The reader is the list of records that it
--   returns (Wal/Reader). `Outcome` has a result, an error, or a panic. View follows one transaction alone, Result
--   the restored writes, Panics the errors and the panic, Commit whole transactions.
-- - Wal/Writer: src/wal/writer.rs over the file interface of Vfs. The time stamp and the nonce of a record
--   are arguments. Steps follows the bytes of the file and the buffer through one write, Calls through
--   one call, Log through any sequence of calls; Active treats the sets of transactions, Reopen a log
--   that is read or opened again, Cursor the place of a write in a file in memory, Guards and Recover the
--   recovery of what was written.
-- - Wal/Reader: src/wal/reader.rs, and the scan and the opening of src/wal/writer.rs. Its loops run on
--   fuel; one more than the size of the file is enough (Termination). Frames and Whole say what is read
--   of framed records.
-- - Table/Bloom: src/table/bloom/memory.rs; Bits are the bits of a byte, Members the positions of a key,
--   Contains the answers after insertions. Table/Bloom/Tombstones: src/table/bloom/tombstone.rs, with
--   what is hidden in Hidden. A hash set is a list without repetition.
-- - Vfs: the file interface of src/vfs/filesystem.rs and its laws; Vfs/Memory the file handle of
--   src/vfs/memory.rs, which fills them in Vfs/Memory/Laws over Positions.
-- - Prelude: shared notation; lists, maps, sets and little-endian bytes over the native numbers.
-- - Tests: runs on concrete inputs.
--
-- Identifiers, log sequence numbers and sizes are natural numbers; where the source narrows one (`as
-- u32`) or an atomic counter wraps, the remainder is written out, and where a theorem needs an integer
-- to fit its width it says so. Where plain arithmetic on machine integers leaves its range, the wrapped
-- value of a build without overflow checks is taken. `HashMap` and `HashSet` are lists whose order stands for any order;
-- `BTreeMap` is a list in the order of its keys. Messages of errors, metrics and printed warnings are
-- left out.
--
-- Not modelled: page formats and the page file, the threads of group commit, the specialty write sets of a
-- transaction, cursors, the table engines but for the Bloom filter in memory, the file system on disk and the engine that connects them.
pub mod Prelude
pub mod Types
pub mod Snap
pub mod Txn
pub mod Pager
pub mod Wal
pub mod Vfs
pub mod Table
pub mod Tests
