-- ===== src/Script/Opcode.antt =====
-- crates/consensus/src/script/opcode.rs: the opcode bytes and the questions asked of one byte.
-- `Opcode(u8)` is the byte itself, a number below 256.
mod Flow
mod Values
mod Crypto
pub use Flow.*
pub use Values.*
pub use Crypto.*
use bitmigo.Prelude.{ℕ, ◌-◌, Bool, ◌&&◌, ◌||◌, not, leb, ltb, ◌==◌}
use bitmigo.Prelude.Int.{ℤ, pos, negsuc, ltb_ℤ, sub_ℕ}
use bitmigo.Script.Error.{Outcome, ok, ◌>>◌, check}

-- `lo..=hi` in a `match`.
abbrev pub between : ℕ → ℕ → ℕ → Bool
between lo hi opcode = leb lo opcode && leb opcode hi

unfoldable pub is_push : ℕ → Bool
is_push opcode = leb opcode op_pushdata4

unfoldable pub is_disabled : ℕ → Bool
is_disabled opcode =
    opcode == op_cat
    || opcode == op_substr
    || opcode == op_left
    || opcode == op_right
    || opcode == op_invert
    || opcode == op_and
    || opcode == op_or
    || opcode == op_xor
    || opcode == op_2mul
    || opcode == op_2div
    || opcode == op_mul
    || opcode == op_div
    || opcode == op_mod
    || opcode == op_lshift
    || opcode == op_rshift

unfoldable pub is_success : ℕ → Bool
is_success opcode =
    opcode == op_reserved
    || opcode == op_ver
    || between op_cat op_right opcode
    || between op_invert op_xor opcode
    || between op_reserved1 op_reserved2 opcode
    || between op_2mul op_2div opcode
    || between op_mul op_rshift opcode
    || between 0xbb 0xfe opcode

unfoldable pub is_conditional : ℕ → Bool
is_conditional opcode = leb op_if opcode && leb opcode op_endif

unfoldable pub counts_toward_op_limit : ℕ → Bool
counts_toward_op_limit opcode = ltb op_16 opcode

unfoldable pub small_integer : ℕ → Outcome ℤ
small_integer opcode = do
  check (opcode == op_1negate || between op_1 op_16 opcode)
  let value = sub_ℕ opcode (op_1 - 1)
  check (not (ltb_ℤ value (negsuc 0)))
  check (not (ltb_ℤ (pos 16) value))
  check (ltb_ℤ value (pos 0) || ltb_ℤ (pos 0) value)
  ok value
