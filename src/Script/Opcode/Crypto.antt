-- ===== src/Script/Opcode/Crypto.antt =====
-- crates/consensus/src/script/opcode.rs: the bytes of the crypto and expansion opcodes.
use bitmigo.Prelude.{ℕ}

abbrev pub op_ripemd160 : ℕ
op_ripemd160 = 0xa6

abbrev pub op_sha1 : ℕ
op_sha1 = 0xa7

abbrev pub op_sha256 : ℕ
op_sha256 = 0xa8

abbrev pub op_hash160 : ℕ
op_hash160 = 0xa9

abbrev pub op_hash256 : ℕ
op_hash256 = 0xaa

abbrev pub op_codeseparator : ℕ
op_codeseparator = 0xab

abbrev pub op_checksig : ℕ
op_checksig = 0xac

abbrev pub op_checksigverify : ℕ
op_checksigverify = 0xad

abbrev pub op_checkmultisig : ℕ
op_checkmultisig = 0xae

abbrev pub op_checkmultisigverify : ℕ
op_checkmultisigverify = 0xaf

abbrev pub op_nop1 : ℕ
op_nop1 = 0xb0

abbrev pub op_checklocktimeverify : ℕ
op_checklocktimeverify = 0xb1

abbrev pub op_checksequenceverify : ℕ
op_checksequenceverify = 0xb2

abbrev pub op_nop4 : ℕ
op_nop4 = 0xb3

abbrev pub op_nop5 : ℕ
op_nop5 = 0xb4

abbrev pub op_nop6 : ℕ
op_nop6 = 0xb5

abbrev pub op_nop7 : ℕ
op_nop7 = 0xb6

abbrev pub op_nop8 : ℕ
op_nop8 = 0xb7

abbrev pub op_nop9 : ℕ
op_nop9 = 0xb8

abbrev pub op_nop10 : ℕ
op_nop10 = 0xb9

abbrev pub op_checksigadd : ℕ
op_checksigadd = 0xba

abbrev pub op_invalidopcode : ℕ
op_invalidopcode = 0xff
