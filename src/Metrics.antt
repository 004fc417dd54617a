-- ===== src/Metrics.antt =====
-- The metrics endpoint: src/metrics.
pub mod Encoder
pub mod Families
pub mod Render
