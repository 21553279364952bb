-- ===== src/Script/Flags.antt =====
-- crates/consensus/src/script/script_flags.rs: a set of script rules as a bit mask, a `u32`.
use Prim.Native.Nat.{bit_or}
use bitmigo.Prelude.{ℕ, ◌-◌, ◌^◌, Bool, ◌==◌, bit_and}

abbrev pub ScriptFlags : Type 0
ScriptFlags = ℕ

abbrev pub flags_none : ScriptFlags
flags_none = 0

abbrev pub flag_p2sh : ScriptFlags
flag_p2sh = 2 ^ 0

abbrev pub flag_dersig : ScriptFlags
flag_dersig = 2 ^ 2

abbrev pub flag_nulldummy : ScriptFlags
flag_nulldummy = 2 ^ 4

abbrev pub flag_checklocktimeverify : ScriptFlags
flag_checklocktimeverify = 2 ^ 9

abbrev pub flag_checksequenceverify : ScriptFlags
flag_checksequenceverify = 2 ^ 10

abbrev pub flag_witness : ScriptFlags
flag_witness = 2 ^ 11

abbrev pub flag_taproot : ScriptFlags
flag_taproot = 2 ^ 17

unfoldable pub union : ScriptFlags → ScriptFlags → ScriptFlags
union a b = bit_or a b

unfoldable pub mandatory : ScriptFlags
unfolding union
mandatory =
    union
      (union
        (union (union (union (union flag_p2sh flag_dersig) flag_nulldummy) flag_checklocktimeverify)
          flag_checksequenceverify)
        flag_witness)
      flag_taproot

unfoldable pub intersection : ScriptFlags → ScriptFlags → ScriptFlags
intersection a b = bit_and a b

-- `self.0 & !other.0` on 32 bits
unfoldable pub difference : ScriptFlags → ScriptFlags → ScriptFlags
difference a b = bit_and a (2 ^ 32 - 1 - b)

unfoldable pub contains : ScriptFlags → ScriptFlags → Bool
contains a b = bit_and a b == b

unfoldable pub is_subset_of : ScriptFlags → ScriptFlags → Bool
unfolding contains
is_subset_of a b = contains b a
