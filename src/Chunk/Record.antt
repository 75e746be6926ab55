-- ===== src/Chunk/Record.antt =====
-- `ChunkKind` and `ChunkRecord` of bxdb-core/src/chunk.rs, with their two encodings.
-- A writer is the list of the bytes that it is given; it cannot fail.
mod Kind
pub mod Log
pub mod Fixed
unfoldable pub use Kind.*
