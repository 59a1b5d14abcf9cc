-- ===== src/Reports.antt =====
-- Penalties for reported users (modules/reports).
pub mod Penalty
pub mod Escalation
pub mod Severity
pub mod Application
pub mod Resolve
pub mod Appeal
pub mod Admin
pub mod Lifecycle
pub mod Following
pub mod Deciding
pub mod Announcing
pub mod Resolution
pub mod Pardoning
pub mod Appealing
pub mod Running
pub mod Merging
pub mod Discarding
pub mod Create
pub mod LifecycleTests
pub mod Tests
