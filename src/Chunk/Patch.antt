-- ===== src/Chunk/Patch.antt =====
-- Delta patches and page tests of bxdb-core/src/chunk.rs.
mod Defs
pub mod Words
pub mod RoundTrip
unfoldable pub use Defs.*
