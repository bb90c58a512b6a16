-- ===== src/Network.antt =====
-- pkg/network: the protobuf codec of the feed messages.
pub mod Protobuf
pub mod Peers
