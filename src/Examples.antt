-- ===== src/Examples.antt =====
-- Runs of the modelled code at concrete inputs, one for each result that has conditions.
mod Gateway
mod Hypercore
mod Sync
mod Network
mod Utp
mod Stun
mod Logger
mod Conn
mod Db
mod Mux
mod Ipc
mod Secure
mod Dht
mod Node
