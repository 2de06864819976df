-- ===== src/Txn.antt =====
-- src/txn: what a transaction needs besides its tables.
pub mod Version
pub mod Conflict
pub mod Deadlock
pub mod Transaction
