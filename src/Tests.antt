-- ===== src/Tests.antt =====
-- Tests and concrete instances of the theorems.
pub mod Samples
pub mod Tracker
pub mod Delivery
pub mod Blocked
pub mod Runs
pub mod Flow
pub mod Topics
pub mod Closed
pub mod Server
pub mod Api
pub mod Metrics
pub mod Registry
