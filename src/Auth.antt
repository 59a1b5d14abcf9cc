-- ===== src/Auth.antt =====
-- Logging in, refresh tokens, logging out and resetting passwords (auth/auth.service.ts).
pub mod Tokens
pub mod Refresh
pub mod Logout
pub mod Granting
pub mod Replay
pub mod Ending
pub mod Login
pub mod FailCount
pub mod Comparing
pub mod Guessing
pub mod Blocking
pub mod Recovery
pub mod LoginTests
pub mod RecoveryTests
pub mod Tests
