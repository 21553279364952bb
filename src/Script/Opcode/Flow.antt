-- ===== src/Script/Opcode/Flow.antt =====
-- crates/consensus/src/script/opcode.rs: the bytes of the pushes, control and stack opcodes.
use bitmigo.Prelude.{ℕ}

abbrev pub op_0 : ℕ
op_0 = 0x00

abbrev pub op_pushdata1 : ℕ
op_pushdata1 = 0x4c

abbrev pub op_pushdata2 : ℕ
op_pushdata2 = 0x4d

abbrev pub op_pushdata4 : ℕ
op_pushdata4 = 0x4e

abbrev pub op_1negate : ℕ
op_1negate = 0x4f

abbrev pub op_reserved : ℕ
op_reserved = 0x50

abbrev pub op_1 : ℕ
op_1 = 0x51

abbrev pub op_16 : ℕ
op_16 = 0x60

abbrev pub op_nop : ℕ
op_nop = 0x61

abbrev pub op_ver : ℕ
op_ver = 0x62

abbrev pub op_if : ℕ
op_if = 0x63

abbrev pub op_notif : ℕ
op_notif = 0x64

abbrev pub op_verif : ℕ
op_verif = 0x65

abbrev pub op_vernotif : ℕ
op_vernotif = 0x66

abbrev pub op_else : ℕ
op_else = 0x67

abbrev pub op_endif : ℕ
op_endif = 0x68

abbrev pub op_verify : ℕ
op_verify = 0x69

abbrev pub op_return : ℕ
op_return = 0x6a

abbrev pub op_toaltstack : ℕ
op_toaltstack = 0x6b

abbrev pub op_fromaltstack : ℕ
op_fromaltstack = 0x6c

abbrev pub op_2drop : ℕ
op_2drop = 0x6d

abbrev pub op_2dup : ℕ
op_2dup = 0x6e

abbrev pub op_3dup : ℕ
op_3dup = 0x6f

abbrev pub op_2over : ℕ
op_2over = 0x70

abbrev pub op_2rot : ℕ
op_2rot = 0x71

abbrev pub op_2swap : ℕ
op_2swap = 0x72

abbrev pub op_ifdup : ℕ
op_ifdup = 0x73

abbrev pub op_depth : ℕ
op_depth = 0x74

abbrev pub op_drop : ℕ
op_drop = 0x75

abbrev pub op_dup : ℕ
op_dup = 0x76

abbrev pub op_nip : ℕ
op_nip = 0x77

abbrev pub op_over : ℕ
op_over = 0x78

abbrev pub op_pick : ℕ
op_pick = 0x79

abbrev pub op_roll : ℕ
op_roll = 0x7a

abbrev pub op_rot : ℕ
op_rot = 0x7b

abbrev pub op_swap : ℕ
op_swap = 0x7c

abbrev pub op_tuck : ℕ
op_tuck = 0x7d
