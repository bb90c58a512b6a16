-- ===== src/Dht.antt =====
-- pkg/dht: the Kademlia overlay.
pub mod Registry
pub mod Routing
pub mod Rpc
pub mod HostPort
pub mod Node
pub mod Dispatcher
pub mod Search
pub mod Swarm
pub mod Topic
pub mod Bootstrap
