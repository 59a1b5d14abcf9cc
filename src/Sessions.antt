-- ===== src/Sessions.antt =====
-- Login sessions (modules/session). What only reads and renders sessions is left out.
pub mod Service
pub mod Deferral
pub mod Revoking
pub mod Tests
