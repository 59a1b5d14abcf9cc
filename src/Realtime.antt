-- ===== src/Realtime.antt =====
-- The realtime layer (modules/realtime): how a call is started.
pub mod StartCall
pub mod OneCall
pub mod Locking
pub mod Tests
