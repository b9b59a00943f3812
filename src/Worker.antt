-- ===== src/Worker.antt =====
-- What the pipeline and the background workers of internal/pipeline share: the tables with the
-- network, the calls that leave the program, and the transaction that is signed.
mod State
mod Signing
pub mod Frame
pub mod Ahead
unfoldable pub use State.*
unfoldable pub use Signing.*
