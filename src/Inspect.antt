-- ===== src/Inspect.antt =====
-- bxdb-inspect/src/main.rs: the state of the terminal browser and what its keys do to it.
mod Load
mod Defs
pub mod Parse
mod Keys
pub mod Filter
pub mod Rows
pub mod State
pub mod Run
unfoldable pub use Load.*
unfoldable pub use Defs.*
unfoldable pub use Keys.*
