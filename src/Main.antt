-- ===== src/Main.antt =====
-- src/main.rs
pub mod Flags
pub mod Spelling
pub mod Version
pub mod Gate
pub mod Settings
pub mod Run
pub mod Program
pub mod Setup
pub mod Passes
pub mod Monitor
pub mod System
pub mod Turns
pub mod Tasks
pub mod Safety
pub mod Handover
