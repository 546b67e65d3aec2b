-- ===== src/Logger.antt =====
-- src/logger.rs
pub mod Level
pub mod Format
pub mod Logfmt
pub mod Emit
pub mod Backups
pub mod Rollover
pub mod Bounds
pub mod Init
