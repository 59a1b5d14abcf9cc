-- ===== src/CleanupJobs.antt =====
-- The queue of side effects to be retried (modules/cleanup-jobs).
pub mod Create
pub mod Command
pub mod Dispatcher
pub mod Process
pub mod Schedule
pub mod Keeping
pub mod Locking
pub mod Settling
pub mod Progress
pub mod Tests
