-- ===== src/Mint.antt =====
-- The mint (internal/mint) over the tables, the signer and the lightning backend.
pub mod Exec
pub mod Environment
pub mod Units
pub mod Inputs
pub mod Outputs
pub mod Balance
pub mod Swap
pub mod Quotes
pub mod Melt
pub mod State
pub mod Restore
pub mod Codes
pub mod Auth
pub mod Polling
pub mod Setup
