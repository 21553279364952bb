-- ===== src/Block/Tests.antt =====
-- The properties of blocks at concrete inputs.
mod Merkle
