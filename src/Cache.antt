-- ===== src/Cache.antt =====
-- bxdb-core/src/cache.rs: the set-associative cache of full pages in shared memory.
mod Defs
pub mod Identity
pub mod Ways
pub mod Slots
pub mod Lru
pub mod Coherence
pub mod Puts
pub mod Hits
pub mod History
pub mod Survival
pub mod Inspect
pub mod Simd
unfoldable pub use Defs.*
