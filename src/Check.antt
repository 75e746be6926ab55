-- ===== src/Check.antt =====
-- bxdb-core/src/check.rs: the check of a directory with a log.
mod Defs
pub mod Records
pub mod Loop
pub mod Sound
unfoldable pub use Defs.*
