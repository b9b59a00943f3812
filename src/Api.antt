-- ===== src/Api.antt =====
-- The reading half of internal/api: transaction.go over the tables, and health.go. A response is the
-- value that `writeJSON` or `writeError` encodes.
mod Query
mod Response
mod Transactions
pub mod Hex
pub mod Pages
pub mod Lookup
pub mod Health
unfoldable pub use Query.*
unfoldable pub use Response.*
unfoldable pub use Transactions.*
