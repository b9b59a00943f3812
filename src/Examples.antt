-- ===== src/Examples.antt =====
-- The theorems at concrete inputs.
mod Data
unfoldable pub use Data.*
mod Amounts
mod Tables
mod Workers
mod Polling
mod Services
mod Requests
mod Running
mod Reading
mod Starting
