-- ===== src/Service.antt =====
-- cmd/tx-sender/main.go and the whole program: how the parts are started, and that whatever they do
-- in turn keeps the invariant of the nonces.
pub mod Calls
pub mod Closed
pub mod Turns
pub mod Workers
pub mod Polls
pub mod Loops
pub mod Requests
pub mod Runs
pub mod Boot
pub mod Ready
pub mod Notified
pub mod Queues
