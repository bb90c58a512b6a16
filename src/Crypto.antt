-- ===== src/Crypto.antt =====
-- pkg/crypto: the encrypted connection between two peers.
pub mod Secure
