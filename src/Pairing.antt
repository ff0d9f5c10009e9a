-- ===== src/Pairing.antt =====
-- src/central/managers/case: pairing a device with a case, by a one-time invite.
pub mod Crypto
pub mod Manager
pub mod Revocation
pub mod Roster
pub mod Once
pub mod Gate
pub mod Expulsion
pub mod Lines
pub mod Listing
