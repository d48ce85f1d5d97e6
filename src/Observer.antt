-- ===== src/Observer.antt =====
-- observer/alliaob.go
pub mod Client
pub mod Events
pub mod Height
pub mod Scan
pub mod Setup
