-- ===== src/Logger.antt =====
-- pkg/logger: the log files.
pub mod Rotator
