-- ===== src/Store.antt =====
-- bxdb-core/src/btree.rs: the page store over an index and the blob files.
mod Defs
pub mod Zstd
pub mod Lookup
pub mod Blobs
pub mod Scan
pub mod Runs
pub mod Bulk
pub mod Cached
pub mod Honest
pub mod Loads
unfoldable pub use Defs.*
