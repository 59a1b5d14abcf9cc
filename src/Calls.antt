-- ===== src/Calls.antt =====
-- Calls (modules/calls): the record of a call, from its creation to its end.
pub mod Query
pub mod Message
pub mod Change
pub mod Machine
pub mod Following
pub mod Running
pub mod Telling
pub mod Missing
pub mod Backfill
pub mod Retelling
pub mod Completing
pub mod MissingTests
pub mod Tests
