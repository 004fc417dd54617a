-- ===== src/Topics.antt =====
-- Topics: src/topics.
pub mod Message
pub mod Name
pub mod Actor
pub mod Manager
