-- ===== src/Utils.antt =====
-- utils/utils.go
pub mod ToSign
pub mod Saved
pub mod Key
