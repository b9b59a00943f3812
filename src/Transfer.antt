-- ===== src/Transfer.antt =====
-- `TransferHandler` of internal/api/transfer.go behind the JSON decoding, on ASCII texts. What
-- go-ethereum computes is an argument: whether a text is an address, the address that it spells,
-- and the ABI encoding of a token transfer.
mod Request
mod Create
pub mod Amounts
pub mod Outcomes
pub mod Rows
pub mod Stored
unfoldable pub use Request.*
unfoldable pub use Create.*
