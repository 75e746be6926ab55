-- ===== src/Chunk.antt =====
-- bxdb-core/src/chunk.rs: keys, chunk records and delta patches.
pub mod Key
pub mod Record
pub mod Patch
