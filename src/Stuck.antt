-- ===== src/Stuck.antt =====
-- `StuckDetector` of internal/pipeline/stuck.go: transactions that wait too long are broadcast
-- again at a higher fee, and given up when that has been done too often. The loop of `Run` calls
-- `check` at every tick.
mod Check
pub mod Steps
pub mod Runs
pub mod Safety
unfoldable pub use Check.*
