-- ===== src/Repo.antt =====
-- internal/infrastructure/postgres/repo.go over the tables of migrations/001_init.sql: each method
-- is the SQL that it sends, as a function of the four tables. A method that a constraint of the
-- schema refuses returns an error. That the connection fails is the business of `call`.
mod Tables
mod Rows
mod Writes
mod Reads
pub mod Scan
pub mod Sorted
pub mod Listing
pub mod Lookup
pub mod Nonces
pub mod Queue
unfoldable pub use Tables.*
unfoldable pub use Rows.*
unfoldable pub use Writes.*
unfoldable pub use Reads.*
