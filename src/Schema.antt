-- ===== src/Schema.antt =====
-- The schema validator of quickapi/schema.
pub mod Issue
pub mod Shape
pub mod Normalize
