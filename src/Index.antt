-- ===== src/Index.antt =====
-- The lookups of bxdb-core/src/btree.rs in a sorted index.
mod Defs
pub mod Sorted
pub mod Exact
pub mod Search
pub mod Mmap
pub mod Find
pub mod Found
pub mod Groups
unfoldable pub use Defs.*
