-- ===== src/Http.antt =====
-- src/http.rs
pub mod Auth
pub mod Request
pub mod Frame
pub mod Status
pub mod Attempts
