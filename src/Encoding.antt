-- ===== src/Encoding.antt =====
-- Go's encoding packages, as far as pkg/ipc and pkg/dht use them.
pub mod Base64
pub mod Hex
