-- ===== src/Checks.antt =====
-- Tests and examples: the theorems at concrete inputs.
pub mod Fixtures
pub mod Amounts
pub mod Conditions
pub mod Requests
pub mod Quotes
pub mod Melts
pub mod Minting
pub mod Keys
pub mod Signing
pub mod Codes
pub mod Auth
pub mod Polling
pub mod Cache
