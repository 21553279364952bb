-- ===== src/Script.antt =====
-- The script interpreter of crates/consensus/src/script.
pub mod Error
pub mod Num
pub mod Opcode
pub mod Flags
pub mod Stack
pub mod Reader
pub mod Conditions
pub mod Machine
pub mod StackOps
pub mod Numeric
pub mod FindDelete
pub mod Der
pub mod Signatures
pub mod Interpreter
pub mod Programs
pub mod Sigops
pub mod Taproot
pub mod Sighash
pub mod Checker
pub mod Verify
mod Tests
