-- ===== src/Repo/Nonces.antt =====
-- The nonces of a sender on a chain: no two transactions hold the same one, and the cursor stands
-- above all of them.
pub mod Invariant
pub mod Assign
pub mod Kept
pub mod Cursor
pub mod Marked
pub mod History
