-- ===== src/Signer.antt =====
-- The local signer (internal/signer/local_signer): keys that are derived from seeds, signatures with
-- the active ones, the check of proofs, and the rotation of a unit's keyset.
pub mod Library
pub mod Paths
pub mod Ids
pub mod Keysets
pub mod Local
pub mod Answers
pub mod Seeds
pub mod Rotate
pub mod Swap
