-- ===== src/Script/Numeric.antt =====
-- The numeric and hash opcodes of crates/consensus/src/script/interpreter.rs.
pub mod Safety
pub mod Values
use bitmigo.Prelude.{ℕ, Bool, false, not, ◌&&◌, ◌||◌, ◌==◌, if◌then◌else◌, length}
use bitmigo.Prelude.Int.{pos, negsuc, ltb_ℤ}
use bitmigo.Script.Error.{Outcome, ok, panic, ◌>>=◌, ◌>>◌, check, fail_if, numequalverify}
use bitmigo.Script.Num.{
  Bytes, ScriptNum, decode, encode, num_one, num_add, num_sub, num_neg, num_abs, from_bool,
  from_usize, is_zero, cast_to_bool, scriptnum_size_max,
}
use bitmigo.Script.Stack.{Stack, require, push, push_bool, pop, top}
use bitmigo.Script.Opcode
use bitmigo.Script.Opcode.{between}
use bitmigo.Script.Machine.{Hashes}

-- The arms of `execute` that come here.
abbrev pub is_unary : ℕ → Bool
is_unary opcode =
    opcode == Opcode.op_1add
    || opcode == Opcode.op_1sub
    || opcode == Opcode.op_negate
    || opcode == Opcode.op_abs
    || opcode == Opcode.op_not
    || opcode == Opcode.op_0notequal

abbrev pub is_binary : ℕ → Bool
is_binary opcode =
    opcode == Opcode.op_add
    || opcode == Opcode.op_sub
    || between Opcode.op_booland Opcode.op_max opcode

unfoldable pub unary_result : ℕ → ScriptNum → Outcome ScriptNum
unary_result opcode n =
    if opcode == Opcode.op_1add
    then num_add n num_one
    else if opcode == Opcode.op_1sub
    then num_sub n num_one
    else if opcode == Opcode.op_negate
    then num_neg n
    else if opcode == Opcode.op_abs
    then num_abs n
    else if opcode == Opcode.op_not
    then ok (from_bool (is_zero n))
    else if opcode == Opcode.op_0notequal
    then ok (from_bool (not (is_zero n)))
    else panic

unfoldable pub numeric_unary : ℕ → Stack → Outcome Stack
numeric_unary opcode s = do
  require 1 s
  operand ← top 1 s
  n ← decode operand scriptnum_size_max
  result ← unary_result opcode n
  (_, s₁) ← pop s
  item ← encode result
  push item s₁

abbrev pub num_eq : ScriptNum → ScriptNum → Bool
num_eq (pos a) (pos b) = a == b
num_eq (pos a) (negsuc b) = false
num_eq (negsuc a) (pos b) = false
num_eq (negsuc a) (negsuc b) = a == b

unfoldable pub binary_result : ℕ → ScriptNum → ScriptNum → Outcome ScriptNum
binary_result opcode x1 x2 =
    if opcode == Opcode.op_add
    then num_add x1 x2
    else if opcode == Opcode.op_sub
    then num_sub x1 x2
    else if opcode == Opcode.op_booland
    then ok (from_bool (not (is_zero x1) && not (is_zero x2)))
    else if opcode == Opcode.op_boolor
    then ok (from_bool (not (is_zero x1) || not (is_zero x2)))
    else if opcode == Opcode.op_numequal || opcode == Opcode.op_numequalverify
    then ok (from_bool (num_eq x1 x2))
    else if opcode == Opcode.op_numnotequal
    then ok (from_bool (not (num_eq x1 x2)))
    else if opcode == Opcode.op_lessthan
    then ok (from_bool (ltb_ℤ x1 x2))
    else if opcode == Opcode.op_greaterthan
    then ok (from_bool (ltb_ℤ x2 x1))
    else if opcode == Opcode.op_lessthanorequal
    then ok (from_bool (not (ltb_ℤ x2 x1)))
    else if opcode == Opcode.op_greaterthanorequal
    then ok (from_bool (not (ltb_ℤ x1 x2)))
    else if opcode == Opcode.op_min
    then ok (if ltb_ℤ x2 x1 then x2 else x1)
    else if opcode == Opcode.op_max
    then ok (if ltb_ℤ x2 x1 then x1 else x2)
    else panic

unfoldable pub numeric_binary : ℕ → Stack → Outcome Stack
numeric_binary opcode s = do
  require 2 s
  left ← top 2 s
  x1 ← decode left scriptnum_size_max
  right ← top 1 s
  x2 ← decode right scriptnum_size_max
  result ← binary_result opcode x1 x2
  (_, s₁) ← pop s
  (_, s₂) ← pop s₁
  item ← encode result
  s₃ ← push item s₂
  if opcode == Opcode.op_numequalverify
      then (do
        verdict ← top 1 s₃
        fail_if (not (cast_to_bool verdict)) numequalverify
        (_, s₄) ← pop s₃
        ok s₄)
      else ok s₃

unfoldable pub within : Stack → Outcome Stack
within s = do
  require 3 s
  x_bytes ← top 3 s
  x ← decode x_bytes scriptnum_size_max
  min_bytes ← top 2 s
  low ← decode min_bytes scriptnum_size_max
  max_bytes ← top 1 s
  high ← decode max_bytes scriptnum_size_max
  let inside = not (ltb_ℤ x low) && ltb_ℤ x high
  (_, s₁) ← pop s
  (_, s₂) ← pop s₁
  (_, s₃) ← pop s₂
  push_bool inside s₃

-- `OP_SIZE`
unfoldable pub size : Stack → Outcome Stack
size s = do
  require 1 s
  item ← top 1 s
  n ← from_usize (length item)
  encoded ← encode n
  push encoded s

unfoldable pub digest_of : Hashes → ℕ → Bytes → Outcome Bytes
digest_of h opcode input =
    if opcode == Opcode.op_ripemd160
    then ok (h.ripemd160 input)
    else if opcode == Opcode.op_sha1
    then ok (h.sha1 input)
    else if opcode == Opcode.op_sha256
    then ok (h.sha256 input)
    else if opcode == Opcode.op_hash160
    then ok (h.hash160 input)
    else if opcode == Opcode.op_hash256
    then ok (h.hash256 input)
    else panic

unfoldable pub hash : Hashes → ℕ → Stack → Outcome Stack
hash h opcode s = do
  require 1 s
  (input, s₁) ← pop s
  digest ← digest_of h opcode input
  check (length digest == 20 || length digest == 32)
  push digest s₁
