-- ===== src/Lightning.antt =====
-- The lightning backends (internal/lightning) behind the interface of the mint.
pub mod FakeWallet
