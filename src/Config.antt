-- ===== src/Config.antt =====
-- internal/config/config.go, and signer.go of internal/infrastructure/ethereum, which signs with the
-- keys that the configuration loads. What viper, the operating system and go-ethereum answer is a
-- parameter.
mod Chains
mod Keys
mod Load
pub mod Signers
pub mod Cleared
pub mod Tokens
pub mod Sound
unfoldable pub use Chains.*
unfoldable pub use Keys.*
unfoldable pub use Load.*
