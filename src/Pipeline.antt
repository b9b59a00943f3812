-- ===== src/Pipeline.antt =====
-- `processTx` of internal/pipeline/pipeline.go: one transaction from its claim to its broadcast.
-- Waiting between two tries, metrics and log lines change no state and are left out.
mod Process
pub mod Outcome
pub mod Fate
pub mod Recorded
pub mod Turn
unfoldable pub use Process.*
