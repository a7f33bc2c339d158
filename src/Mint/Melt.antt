-- ===== src/Mint/Melt.antt =====
-- Melts (internal/mint/melting.go): a melt quote, the proofs that pay for it, the lightning
-- payment, and the change. The events that are sent at the end are left out.
pub mod Quote
pub mod Reserve
pub mod Settle
pub mod Pay
pub mod Reservation
