-- ===== src/Api.antt =====
-- The gRPC services: src/api.
pub mod Proto
pub mod Text
pub mod Parser
pub mod Call
pub mod Resources
pub mod Publisher
pub mod Subscriber
