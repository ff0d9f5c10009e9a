-- ===== src/Worker.antt =====
-- src/central/managers/worker: which worker a session gets, its lease, and the workers' lifetimes.
pub mod Selector
pub mod Lease
pub mod Manager
pub mod Lost
pub mod Termination
