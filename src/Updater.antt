-- ===== src/Updater.antt =====
-- The updater: its functions on top of edify, and its main program.
pub mod Machine
pub mod Volumes
pub mod Files
pub mod Properties
pub mod Images
pub mod Screen
pub mod Registration
pub mod Safety
pub mod Protocol
pub mod Lookup
pub mod Names
mod Tests
