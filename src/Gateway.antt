-- ===== src/Gateway.antt =====
-- cmd/gateway: the program itself.
pub mod Bridge
