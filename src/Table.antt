-- ===== src/Table.antt =====
-- src/table: the table engines and filters that are modelled.
pub mod Bloom
