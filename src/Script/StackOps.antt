-- ===== src/Script/StackOps.antt =====
-- The stack opcodes of crates/consensus/src/script/interpreter.rs: `stack_op_pairs`,
-- `stack_op_singles`, `pick_or_roll` and `equal`. One function for each arm of a `match`.
pub mod Safety
pub mod Effects
use bitmigo.Prelude.{ℕ, ◌+◌, Bool, true, false, not, [], ◌∷◌, leb, ◌==◌, if◌then◌else◌, length}
use bitmigo.Prelude.Int.{ℤ, pos, negsuc}
use bitmigo.Script.Error.{
  Outcome, ok, err, panic, ◌>>=◌, ◌>>◌, fail_if, invalid_stack_operation,
  invalid_altstack_operation, equalverify,
}
use bitmigo.Script.Num.{
  Bytes, decode, encode, from_usize, to_clamped_i32, cast_to_bool, scriptnum_size_max,
}
use bitmigo.Script.Stack.{Stack, require, push, push_bool, pop, top, swap, remove, insert}
use bitmigo.Script.Opcode
use bitmigo.Script.Machine.{Machine}

unfoldable pub to_altstack : Machine → Outcome Machine
to_altstack m = do
  require 1 m.stack
  (item, stack) ← pop m.stack
  altstack ← push item m.altstack
  ok (record m { stack = stack; altstack = altstack })

unfoldable pub from_altstack : Machine → Outcome Machine
from_altstack m = do
  fail_if (length m.altstack == 0) invalid_altstack_operation
  (item, altstack) ← pop m.altstack
  stack ← push item m.stack
  ok (record m { stack = stack; altstack = altstack })

unfoldable pub drop2 : Stack → Outcome Stack
drop2 s = do require 2 s; (_, s₁) ← pop s; (_, s₂) ← pop s₁; ok s₂

unfoldable pub dup2 : Stack → Outcome Stack
dup2 s = do require 2 s; x1 ← top 2 s; x2 ← top 1 s; s₁ ← push x1 s; push x2 s₁

unfoldable pub dup3 : Stack → Outcome Stack
dup3 s = do
  require 3 s
  x1 ← top 3 s
  x2 ← top 2 s
  x3 ← top 1 s
  s₁ ← push x1 s
  s₂ ← push x2 s₁
  push x3 s₂

unfoldable pub over2 : Stack → Outcome Stack
over2 s = do require 4 s; x1 ← top 4 s; x2 ← top 3 s; s₁ ← push x1 s; push x2 s₁

unfoldable pub rot2 : Stack → Outcome Stack
rot2 s = do require 6 s; (x1, s₁) ← remove 6 s; (x2, s₂) ← remove 5 s₁; s₃ ← push x1 s₂; push x2 s₃

unfoldable pub swap2 : Stack → Outcome Stack
swap2 s = do require 4 s; s₁ ← swap 4 2 s; swap 3 1 s₁

-- The machine with its stack rewritten.
abbrev pub on_stack : (Stack → Outcome Stack) → Machine → Outcome Machine
on_stack f m = do stack ← f m.stack; ok (record m { stack = stack })

unfoldable pub stack_op_pairs : ℕ → Machine → Outcome Machine
stack_op_pairs opcode m =
    if opcode == Opcode.op_toaltstack
    then to_altstack m
    else if opcode == Opcode.op_fromaltstack
    then from_altstack m
    else if opcode == Opcode.op_2drop
    then on_stack drop2 m
    else if opcode == Opcode.op_2dup
    then on_stack dup2 m
    else if opcode == Opcode.op_3dup
    then on_stack dup3 m
    else if opcode == Opcode.op_2over
    then on_stack over2 m
    else if opcode == Opcode.op_2rot
    then on_stack rot2 m
    else if opcode == Opcode.op_2swap
    then on_stack swap2 m
    else panic

unfoldable pub if_dup : Stack → Outcome Stack
if_dup s = do require 1 s; x ← top 1 s; if cast_to_bool x then push x s else ok s

unfoldable pub depth : Stack → Outcome Stack
depth s = do n ← from_usize (length s); item ← encode n; push item s

unfoldable pub drop1 : Stack → Outcome Stack
drop1 s = do require 1 s; (_, s₁) ← pop s; ok s₁

unfoldable pub dup : Stack → Outcome Stack
dup s = do require 1 s; x ← top 1 s; push x s

unfoldable pub nip : Stack → Outcome Stack
nip s = do require 2 s; (_, s₁) ← remove 2 s; ok s₁

unfoldable pub over : Stack → Outcome Stack
over s = do require 2 s; x1 ← top 2 s; push x1 s

-- `usize::try_from(n)`, which fails on a negative depth.
abbrev pub depth_from : ℤ → Outcome ℕ
depth_from (pos n) = ok n
depth_from (negsuc n) = err invalid_stack_operation

unfoldable pub pick_or_roll : ℕ → Stack → Outcome Stack
pick_or_roll opcode s = do
  require 2 s
  operand ← top 1 s
  decoded ← decode operand scriptnum_size_max
  (_, s₁) ← pop s
  n ← depth_from (to_clamped_i32 decoded)
  fail_if (leb (length s₁) n) invalid_stack_operation
  item ← top (n + 1) s₁
  s₂ ← (if opcode == Opcode.op_roll then remove (n + 1) s₁ else ok (item, s₁))
  push item s₂.1

unfoldable pub rot : Stack → Outcome Stack
rot s = do require 3 s; s₁ ← swap 3 2 s; swap 2 1 s₁

unfoldable pub swap1 : Stack → Outcome Stack
swap1 s = do require 2 s; swap 2 1 s

unfoldable pub tuck : Stack → Outcome Stack
tuck s = do require 2 s; x2 ← top 1 s; insert 2 x2 s

unfoldable pub stack_op_singles : ℕ → Stack → Outcome Stack
stack_op_singles opcode s =
    if opcode == Opcode.op_ifdup
    then if_dup s
    else if opcode == Opcode.op_depth
    then depth s
    else if opcode == Opcode.op_drop
    then drop1 s
    else if opcode == Opcode.op_dup
    then dup s
    else if opcode == Opcode.op_nip
    then nip s
    else if opcode == Opcode.op_over
    then over s
    else if opcode == Opcode.op_pick
    then pick_or_roll opcode s
    else if opcode == Opcode.op_roll
    then pick_or_roll opcode s
    else if opcode == Opcode.op_rot
    then rot s
    else if opcode == Opcode.op_swap
    then swap1 s
    else if opcode == Opcode.op_tuck
    then tuck s
    else panic

-- Equality of byte strings.
unfoldable pub bytes_eq : Bytes → Bytes → Bool
bytes_eq [] [] = true
bytes_eq [] (y ∷ ys) = false
bytes_eq (x ∷ xs) [] = false
bytes_eq (x ∷ xs) (y ∷ ys) = if x == y then bytes_eq xs ys else false

unfoldable pub equal : ℕ → Stack → Outcome Stack
equal opcode s = do
  require 2 s
  (x2, s₁) ← pop s
  (x1, s₂) ← pop s₁
  let same = bytes_eq x1 x2
  s₃ ← push_bool same s₂
  if opcode == Opcode.op_equalverify
      then (do fail_if (not same) equalverify; (_, s₄) ← pop s₃; ok s₄)
      else ok s₃
