-- ===== src/Receipts/Depth.antt =====
-- When an included transaction counts as deep enough.
use evm_tx_sender.Prelude.{ℕ, ◌+◌, ◌-◌, ◌^◌, ◌≤◌, ◌<◌, ◌↔◌, ◌≡◌, true, some, arith}
use evm_tx_sender.Receipts.{ReceiptPoller, depth, is_ready}

depth_ahead :
    (current block : ℕ) → block ≤ current → current < 2 ^ 64 → depth current block ≡ current - block
unfolding depth
depth_ahead current block h k = omega arith

depth_behind :
    (current block : ℕ)
    → current < block
    → block < 2 ^ 64
    → depth current block ≡ 2 ^ 64 - (block - current)
unfolding depth
depth_behind current block h k = omega arith

-- For a node that is at the block of the transaction or past it, the transaction is ready exactly
-- if the confirmation depth is reached.
pub is_ready_iff :
    (rp : ReceiptPoller) (current block : ℕ)
    → block ≤ current
    → current < 2 ^ 64
    → (is_ready rp current (some block) ≡ true) ↔ (rp.confirmation_blocks ≤ current - block)
is_ready_iff rp current block h k = ground (arith, depth_ahead current block h k)

-- For a node that is behind the block of the transaction, the subtraction wraps around: the
-- transaction is ready unless the confirmation depth and the lag together exceed 2 ^ 64, so that
-- a lagging node skips the wait for confirmations.
pub lagging_node_is_ready :
    (rp : ReceiptPoller) (current block : ℕ)
    → current < block
    → block < 2 ^ 64
    → rp.confirmation_blocks + (block - current) ≤ 2 ^ 64
    → is_ready rp current (some block) ≡ true
lagging_node_is_ready rp current block h k small = ground (arith, depth_behind current block h k)
