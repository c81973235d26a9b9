-- ===== src/State.antt =====
-- The database that every component reads and writes (packages/db/src/schema), the errors the
-- components throw, and transactions over it.
mod Rows
mod Errors
mod Database
pub mod Tx
pub use Rows.*
pub use Errors.*
unfoldable pub use Database.*
