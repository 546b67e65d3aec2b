-- ===== src/Health.antt =====
-- src/health.rs
pub mod Status
pub mod Live
pub mod Server
pub mod Requests
pub mod Listen
pub mod Families
