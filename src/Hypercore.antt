-- ===== src/Hypercore.antt =====
-- pkg/hypercore: the replicated append-only feed.
pub mod Wire
pub mod Storage
pub mod Merkle
pub mod Extension
pub mod Sync
