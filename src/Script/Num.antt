-- ===== src/Script/Num.antt =====
-- crates/consensus/src/script/num.rs: script numbers, and the truth value of a stack element.
-- A byte string is a list of numbers below 256; an `i64` is an integer, with the range checks of
-- the source written out.
pub mod Value
pub mod Bounds
pub mod RoundTrip
pub mod Codec
use bitmigo.Prelude.{
  ℕ, zero, suc, ◌+◌, ◌-◌, ◌*◌, ◌/◌, ◌%◌, ◌^◌, Bool, true, false, not, ◌&&◌, List, [], ◌∷◌, leb, ltb,
  ◌==◌, if◌then◌else◌, length,
}
use bitmigo.Prelude.Int.{ℤ, pos, negsuc, ◌+ℤ◌, ◌-ℤ◌}
use bitmigo.Script.Error.{Outcome, ok, ◌>>◌, check, fail_if, scriptnum}

abbrev pub Bytes : Type 0
Bytes = List ℕ

abbrev pub scriptnum_size_max : ℕ
scriptnum_size_max = 4

abbrev pub scriptnum_locktime_size_max : ℕ
scriptnum_locktime_size_max = 5

-- `ScriptNum(i64)`
abbrev pub ScriptNum : Type 0
ScriptNum = ℤ

abbrev pub num_zero : ScriptNum
num_zero = pos 0

abbrev pub num_one : ScriptNum
num_one = pos 1

-- `unsigned_abs`
abbrev pub unsigned_abs : ℤ → ℕ
unsigned_abs (pos n) = n
unsigned_abs (negsuc n) = suc n

-- Unary minus.
abbrev pub negate : ℤ → ℤ
negate (pos zero) = pos 0
negate (pos (suc n)) = negsuc n
negate (negsuc n) = pos (suc n)

-- The value lies in the range of `i64`.
abbrev pub in_i64 : ℤ → Bool
in_i64 (pos n) = ltb n (2 ^ 63)
in_i64 (negsuc n) = ltb n (2 ^ 63)

-- The loop of `decode`. The shifted bytes are disjoint, so `|=` is a sum.
unfoldable pub magnitude_loop : Bytes → ℕ → ℕ → ℕ
magnitude_loop [] index magnitude = magnitude
magnitude_loop (byte ∷ bytes) index magnitude =
    magnitude_loop bytes (index + 1) (magnitude + byte * 2 ^ (8 * index))

-- `split_last`, its last byte; 0 for the empty string, which `decode` has returned on before.
unfoldable pub last_byte : Bytes → ℕ
last_byte [] = 0
last_byte (byte ∷ []) = byte
last_byte (byte ∷ next ∷ bytes) = last_byte (next ∷ bytes)

-- The value of a non-empty string. `last & 0x80 != 0` is `128 <= last`, and clearing the sign bit,
-- which is set in that branch, subtracts it.
unfoldable pub decode_value : Bytes → ℤ
decode_value bytes =
    let magnitude = magnitude_loop bytes 0 0 in
    if leb 128 (last_byte bytes)
    then negate (pos (magnitude - 128 * 2 ^ (8 * (length bytes - 1))))
    else pos magnitude

unfoldable pub decode : Bytes → ℕ → Outcome ScriptNum
decode bytes size_max = do
  check (leb size_max scriptnum_locktime_size_max)
  fail_if (ltb size_max (length bytes)) scriptnum
  if length bytes == 0
      then ok num_zero
      else do let value = decode_value bytes; check (ltb (unsigned_abs value) (2 ^ 39)); ok value

unfoldable pub from_i64 : ℤ → Outcome ScriptNum
from_i64 value = do check (ltb (unsigned_abs value) (2 ^ 40)); ok value

-- `i64::try_from(value).expect(..)`
unfoldable pub from_usize : ℕ → Outcome ScriptNum
from_usize value = do check (ltb value (2 ^ 63)); ok (pos value)

unfoldable pub from_bool : Bool → ScriptNum
from_bool value = if value then num_one else num_zero

-- The value clamped to the range of `i32`.
unfoldable pub to_clamped_i32 : ScriptNum → ℤ
to_clamped_i32 (pos n) = if ltb n (2 ^ 31) then pos n else pos (2 ^ 31 - 1)
to_clamped_i32 (negsuc n) = if ltb n (2 ^ 31) then negsuc n else negsuc (2 ^ 31 - 1)

-- `while magnitude > 0 { bytes.push(magnitude & 0xff); magnitude >>= 8 }`; the fuel is the number
-- of bytes of a `u64`.
unfoldable pub magnitude_bytes : ℕ → ℕ → Bytes
magnitude_bytes zero magnitude = []
magnitude_bytes (suc fuel) magnitude =
    let rest = magnitude_bytes fuel (magnitude / 256) in
    if ltb 0 magnitude then (magnitude % 256) ∷ rest else []

-- The sign goes into the top bit of the last byte, or into a byte of its own if that bit is taken.
unfoldable pub add_sign : Bool → Bytes → Bytes
add_sign negative [] = []
add_sign negative (last ∷ []) =
    if leb 128 last
    then last ∷ (if negative then 128 else 0) ∷ []
    else (if negative then last + 128 else last) ∷ []
add_sign negative (byte ∷ next ∷ bytes) = byte ∷ add_sign negative (next ∷ bytes)

abbrev pub is_negative : ℤ → Bool
is_negative (pos n) = false
is_negative (negsuc n) = true

unfoldable pub is_zero : ScriptNum → Bool
is_zero (pos n) = n == 0
is_zero (negsuc n) = false

unfoldable pub encode : ScriptNum → Outcome Bytes
unfolding is_zero magnitude_bytes add_sign
encode n = if is_zero n then ok [] else do
  let bytes = add_sign (is_negative n) (magnitude_bytes 8 (unsigned_abs n))
  check (leb (length bytes) 9)
  ok bytes

-- `checked_add`, `checked_sub` and `checked_neg`, with `expect`.
abbrev pub checked : ℤ → Outcome ScriptNum
checked n = do check (in_i64 n); ok n

unfoldable pub num_add : ScriptNum → ScriptNum → Outcome ScriptNum
num_add a b = checked (a +ℤ b)

unfoldable pub num_sub : ScriptNum → ScriptNum → Outcome ScriptNum
num_sub a b = checked (a -ℤ b)

unfoldable pub num_neg : ScriptNum → Outcome ScriptNum
num_neg a = checked (negate a)

unfoldable pub num_abs : ScriptNum → Outcome ScriptNum
unfolding num_neg
num_abs a = if is_negative a then num_neg a else ok a

-- A lone 0x80 in the last position is negative zero.
unfoldable pub cast_to_bool : Bytes → Bool
cast_to_bool [] = false
cast_to_bool (byte ∷ rest) =
    let later = cast_to_bool rest in
    if byte == 0 then later else not (length rest == 0 && byte == 128)
