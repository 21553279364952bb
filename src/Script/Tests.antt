-- ===== src/Script/Tests.antt =====
-- Concrete runs of the script code, and the properties at concrete inputs.
pub mod World
mod Witnesses
mod Counts
mod Taproot
mod Verify
mod Checker
