-- ===== src/Utp.antt =====
-- pkg/utp: the reliable transport over datagrams.
pub mod Packet
pub mod Reliability
pub mod Conn
pub mod Stun
pub mod Mux
pub mod Relay
pub mod Congestion
