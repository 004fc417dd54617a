-- ===== src/Subscriptions.antt =====
-- Subscriptions: src/subscriptions and src/collections.
pub mod Pulled
pub mod Schedule
pub mod Outstanding
pub mod RetryQueue
pub mod Policies
pub mod Info
pub mod Filter
pub mod Actor
pub mod Manager
pub mod FlowControl
