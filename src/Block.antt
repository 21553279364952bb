-- ===== src/Block.antt =====
-- crates/consensus/src/block: blocks.
pub mod Merkle
mod Tests
