-- ===== src/Examples.antt =====
-- The theorems at concrete inputs, on a host in memory.
pub mod Data
pub mod Disk
pub mod Names
pub mod Network
pub mod Sync
mod Refine
mod System
mod Startup
mod Logs
pub mod Events
