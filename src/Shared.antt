-- ===== src/Shared.antt =====
-- mediaorchard/shared
pub mod Enums
pub mod DateTimes
pub mod Texts
pub mod Paths
pub mod Security
pub mod Redaction
