-- ===== src/Header.antt =====
-- crates/consensus/src/header: block headers.
pub mod Uint
mod Tests
