-- ===== src/Relationships.antt =====
-- Friendship and blocking (modules/relationships).
pub mod Access
pub mod Query
pub mod Request
pub mod Block
pub mod Reading
pub mod Uniqueness
pub mod Blocking
pub mod Effects
pub mod Acceptance
pub mod Trace
mod Tests
