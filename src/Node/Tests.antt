-- ===== src/Node/Tests.antt =====
-- The properties of the node's parts at concrete inputs.
mod Queue
