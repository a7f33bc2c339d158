-- ===== src/Cashu.antt =====
-- The cashu package (api/cashu): data, amounts, fees and spend conditions.
pub mod Errors
pub mod Types
pub mod Amounts
pub mod Fees
pub mod Externals
pub mod Convert
pub mod SpendCondition
pub mod Keys
pub mod Codes
pub mod Auth
