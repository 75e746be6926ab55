-- ===== src/Write.antt =====
-- bxdb-core/src/append_only.rs: what a save does with one page, and with the pages of a snapshot.
mod Defs
pub mod Shadow
pub mod Saved
pub mod Page
pub mod Pass
pub mod Save
pub mod Bitmap
pub mod SaveBitmap
unfoldable pub use Defs.*
