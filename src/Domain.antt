-- ===== src/Domain.antt =====
-- internal/domain: the data model, the error codes, the configuration and the amount parser.
mod Errors
mod Records
mod Config
pub mod Amount
pub mod Spelling
pub use Errors.*
pub use Records.*
pub use Config.*
