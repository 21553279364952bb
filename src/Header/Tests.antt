-- ===== src/Header/Tests.antt =====
-- The properties of headers at concrete inputs.
mod Uint
