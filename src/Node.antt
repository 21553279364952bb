-- ===== src/Node.antt =====
-- crates/bitmigo: the node around the consensus rules.
pub mod Queue
mod Tests
