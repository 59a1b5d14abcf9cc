-- ===== src/Messages.antt =====
-- Reactions to messages (modules/messages).
pub mod Reaction
pub mod Checking
pub mod Reacting
pub mod Tests
