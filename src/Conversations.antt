-- ===== src/Conversations.antt =====
-- Conversations (modules/conversations): access, the last message, pins, read receipts and the
-- removal of members.
pub mod Access
pub mod State
pub mod Member
pub mod Membership
pub mod Reading
pub mod Tests
