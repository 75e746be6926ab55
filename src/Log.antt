-- ===== src/Log.antt =====
-- Reading and writing whole files of records, as build_lazy_index (bxdb-core/src/btree.rs),
-- to_btree and to_log (bxdb-core/src/convert.rs) and read_index, read_log and the writers
-- (bxdb-core/src/purge.rs) do.
pub mod Records
pub mod RoundTrip
pub mod Sort
pub mod Newest
pub mod Groups
