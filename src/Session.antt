-- ===== src/Session.antt =====
-- src/central/managers/session: the durable life of a session, from its creation to its end.
pub mod EventLog
pub mod Lifecycle
pub mod Assignment
pub mod Start
pub mod Pause
pub mod Manager
pub mod Log
pub mod Kept
pub mod KeptByAll
pub mod Queued
pub mod Turns
