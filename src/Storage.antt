-- ===== src/Storage.antt =====
-- src/central/storage/local-file-storage.ts: one action for each method, over whole records.
pub mod Records
pub mod Claims
pub mod Contention
pub mod Versioned
pub mod Families
