-- ===== src/Text.antt =====
-- Numbers and times as text: `Display` of the unsigned integers, and src/time.rs.
pub mod Decimal
pub mod Time
pub mod Number
