-- ===== src/Examples.antt =====
-- The theorems at concrete worlds: one session, one worker, one group of two devices.

mod Data
mod Sessions
mod Workers
mod Groups
mod Devices
mod Records
mod Relations
mod Interactions
