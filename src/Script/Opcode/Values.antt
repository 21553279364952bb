-- ===== src/Script/Opcode/Values.antt =====
-- crates/consensus/src/script/opcode.rs: the bytes of the splice, bit logic and numeric opcodes.
use bitmigo.Prelude.{ℕ}

abbrev pub op_cat : ℕ
op_cat = 0x7e

abbrev pub op_substr : ℕ
op_substr = 0x7f

abbrev pub op_left : ℕ
op_left = 0x80

abbrev pub op_right : ℕ
op_right = 0x81

abbrev pub op_size : ℕ
op_size = 0x82

abbrev pub op_invert : ℕ
op_invert = 0x83

abbrev pub op_and : ℕ
op_and = 0x84

abbrev pub op_or : ℕ
op_or = 0x85

abbrev pub op_xor : ℕ
op_xor = 0x86

abbrev pub op_equal : ℕ
op_equal = 0x87

abbrev pub op_equalverify : ℕ
op_equalverify = 0x88

abbrev pub op_reserved1 : ℕ
op_reserved1 = 0x89

abbrev pub op_reserved2 : ℕ
op_reserved2 = 0x8a

abbrev pub op_1add : ℕ
op_1add = 0x8b

abbrev pub op_1sub : ℕ
op_1sub = 0x8c

abbrev pub op_2mul : ℕ
op_2mul = 0x8d

abbrev pub op_2div : ℕ
op_2div = 0x8e

abbrev pub op_negate : ℕ
op_negate = 0x8f

abbrev pub op_abs : ℕ
op_abs = 0x90

abbrev pub op_not : ℕ
op_not = 0x91

abbrev pub op_0notequal : ℕ
op_0notequal = 0x92

abbrev pub op_add : ℕ
op_add = 0x93

abbrev pub op_sub : ℕ
op_sub = 0x94

abbrev pub op_mul : ℕ
op_mul = 0x95

abbrev pub op_div : ℕ
op_div = 0x96

abbrev pub op_mod : ℕ
op_mod = 0x97

abbrev pub op_lshift : ℕ
op_lshift = 0x98

abbrev pub op_rshift : ℕ
op_rshift = 0x99

abbrev pub op_booland : ℕ
op_booland = 0x9a

abbrev pub op_boolor : ℕ
op_boolor = 0x9b

abbrev pub op_numequal : ℕ
op_numequal = 0x9c

abbrev pub op_numequalverify : ℕ
op_numequalverify = 0x9d

abbrev pub op_numnotequal : ℕ
op_numnotequal = 0x9e

abbrev pub op_lessthan : ℕ
op_lessthan = 0x9f

abbrev pub op_greaterthan : ℕ
op_greaterthan = 0xa0

abbrev pub op_lessthanorequal : ℕ
op_lessthanorequal = 0xa1

abbrev pub op_greaterthanorequal : ℕ
op_greaterthanorequal = 0xa2

abbrev pub op_min : ℕ
op_min = 0xa3

abbrev pub op_max : ℕ
op_max = 0xa4

abbrev pub op_within : ℕ
op_within = 0xa5
