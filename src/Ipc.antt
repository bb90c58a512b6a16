-- ===== src/Ipc.antt =====
-- pkg/ipc: the commands of the local clients.
pub mod Client
