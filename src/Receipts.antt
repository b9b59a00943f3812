-- ===== src/Receipts.antt =====
-- `ReceiptPoller` of internal/pipeline/receipt.go: it reads the receipts of submitted transactions,
-- and watches the depth of included ones. The loop of `Run` calls `poll` at every tick.
mod Logs
mod Handle
mod Loops
pub mod Transfers
pub mod Depth
pub mod Moves
pub mod Changes
pub mod Cursors
pub mod Paging
pub mod Attempts
pub mod Waiting
unfoldable pub use Logs.*
unfoldable pub use Handle.*
unfoldable pub use Loops.*
