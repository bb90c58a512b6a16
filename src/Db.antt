-- ===== src/Db.antt =====
-- pkg/db: the repositories of blocks and swarms.
pub mod Block
pub mod Bolt
pub mod Repository
