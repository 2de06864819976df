-- ===== src/Wal.antt =====
-- src/wal: the write-ahead log.
pub mod Error
pub mod Record
pub mod Recovery
pub mod Writer
pub mod Reader
