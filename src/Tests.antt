-- ===== src/Tests.antt =====
-- Runs of the modelled code on concrete inputs.
mod Recovery
mod Logs
mod Reads
mod Transactions
mod Records
mod Versions
mod Locks
mod Waits
mod Pages
mod Caches
mod Shards
mod Filters
