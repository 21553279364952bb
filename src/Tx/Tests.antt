-- ===== src/Tx/Tests.antt =====
-- The properties of transactions at concrete inputs.
mod Rules
