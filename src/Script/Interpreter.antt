-- ===== src/Script/Interpreter.antt =====
-- `eval_script` and `Machine::execute` of crates/consensus/src/script/interpreter.rs.
pub mod Safety
pub mod Execute
pub mod Total
pub mod Nesting
use bitmigo.Prelude.{
  ℕ, zero, suc, ◌+◌, Bool, true, false, not, ◌&&◌, ◌||◌, List, [], ◌∷◌, Option, none, some, leb,
  ltb, ◌==◌, if◌then◌else◌, length, bit_and, ◌^◌,
}
use bitmigo.Prelude.Int.{ℤ, pos, ltb_ℤ}
use bitmigo.Script.Error.{
  Outcome, ok, err, panic, ◌>>=◌, ◌>>◌, check, fail_if, verify, op_return, bad_opcode, script_size,
  unbalanced_conditional, negative_locktime, unsatisfied_locktime, tapscript_minimalif, push_size,
  op_count, disabled_opcode, stack_size,
}
use bitmigo.Script.Num.{
  Bytes, decode, encode, from_i64, cast_to_bool, is_negative, unsigned_abs,
  scriptnum_locktime_size_max,
}
use bitmigo.Script.Stack.{Stack, stack_new, require, push, pop, top, max_script_element_size}
use bitmigo.Script.Opcode
use bitmigo.Script.Opcode.{
  between, is_push, is_disabled, is_conditional, counts_toward_op_limit, small_integer,
}
use bitmigo.Script.Flags.{ScriptFlags, contains, flag_checklocktimeverify, flag_checksequenceverify}
use bitmigo.Script.Reader.{
  Op, Reader, reader_new, Next, finished, yield, failed, next_op, opcode_index,
}
use bitmigo.Script.Conditions.{
  ConditionStack, conditions_new, conditions_empty, all_true, conditions_push, conditions_pop,
  toggle_top,
}
use bitmigo.Script.Machine.{
  SigVersion, is_tapscript, Checker, Hashes, ExecData, Env, Machine, codeseparator_pos_none,
  max_script_size, max_stack_size, max_ops_per_script, op_count_max,
}
use bitmigo.Script.StackOps.{stack_op_pairs, stack_op_singles, equal, bytes_eq, on_stack}
use bitmigo.Script.Numeric.{numeric_unary, numeric_binary, is_unary, is_binary, within, size, hash}
use bitmigo.Script.Signatures.{checksig, checksigadd, checkmultisig}

-- checker.rs: bit 31 of a sequence.
abbrev pub sequence_locktime_disable_flag : ℕ
sequence_locktime_disable_flag = 2 ^ 31

unfoldable pub check_locktime : Env → Machine → Outcome Machine
check_locktime env m = if not (contains env.flags flag_checklocktimeverify) then ok m else do
  require 1 m.stack
  operand ← top 1 m.stack
  lock_time ← decode operand scriptnum_locktime_size_max
  fail_if (is_negative lock_time) negative_locktime
  satisfied ← env.checker.check_locktime lock_time
  fail_if (not satisfied) unsatisfied_locktime
  ok m

-- `sequence.value() & SEQUENCE_LOCKTIME_DISABLE_FLAG` is asked of a value that is not negative.
unfoldable pub check_sequence : Env → Machine → Outcome Machine
check_sequence env m = if not (contains env.flags flag_checksequenceverify) then ok m else do
  require 1 m.stack
  operand ← top 1 m.stack
  sequence ← decode operand scriptnum_locktime_size_max
  fail_if (is_negative sequence) negative_locktime
  if not (bit_and (unsigned_abs sequence) sequence_locktime_disable_flag == 0) then ok m else do
    satisfied ← env.checker.check_sequence sequence
    fail_if (not satisfied) unsatisfied_locktime
    ok m

-- `argument.is_empty() || argument == [1]`
abbrev pub is_minimal : Bytes → Bool
is_minimal argument = length argument == 0 || bytes_eq argument (1 ∷ [])

-- The value of an executed `OP_IF` or `OP_NOTIF`, and the stack without it.
unfoldable pub branch_value : Env → ℕ → Stack → Outcome (Bool × Stack)
branch_value env opcode s = do
  require 1 s
  argument ← top 1 s
  fail_if (is_tapscript env.sig_version && not (is_minimal argument)) tapscript_minimalif
  let value = cast_to_bool argument
  (_, s₁) ← pop s
  ok (if opcode == Opcode.op_notif then not value else value, s₁)

unfoldable pub branch : Env → ℕ → Bool → Machine → Outcome Machine
branch env opcode executing m = do
  (value, s) ← (if executing then branch_value env opcode m.stack else ok (false, m.stack))
  conditions ← conditions_push value m.conditions
  ok (record m { stack = s; conditions = conditions })

unfoldable pub else_op : Machine → Outcome Machine
else_op m = do
  fail_if (conditions_empty m.conditions) unbalanced_conditional
  conditions ← toggle_top m.conditions
  ok (record m { conditions = conditions })

unfoldable pub endif_op : Machine → Outcome Machine
endif_op m = do
  fail_if (conditions_empty m.conditions) unbalanced_conditional
  conditions ← conditions_pop m.conditions
  ok (record m { conditions = conditions })

unfoldable pub verify_op : Stack → Outcome Stack
verify_op s = do
  require 1 s
  value ← top 1 s
  fail_if (not (cast_to_bool value)) verify
  (_, s₁) ← pop s
  ok s₁

unfoldable pub push_small : ℕ → Stack → Outcome Stack
push_small opcode s = do
  n ← small_integer opcode
  value ← from_i64 n
  item ← encode value
  push item s

abbrev pub is_nop : ℕ → Bool
is_nop opcode =
    opcode == Opcode.op_nop
    || opcode == Opcode.op_nop1
    || between Opcode.op_nop4 Opcode.op_nop10 opcode

-- The arms of `execute` that a conditional, a NOP or a lock time takes.
unfoldable pub execute_control : Env → Op → Bool → ℕ → Machine → Outcome Machine
execute_control env op executing index m =
    if op.opcode == Opcode.op_checklocktimeverify
    then check_locktime env m
    else if op.opcode == Opcode.op_checksequenceverify
    then check_sequence env m
    else if op.opcode == Opcode.op_if || op.opcode == Opcode.op_notif
    then branch env op.opcode executing m
    else if op.opcode == Opcode.op_else
    then else_op m
    else if op.opcode == Opcode.op_endif
    then endif_op m
    else if op.opcode == Opcode.op_verify
    then on_stack verify_op m
    else if op.opcode == Opcode.op_return
    then err op_return
    else if op.opcode == Opcode.op_codeseparator
    then ok (record m {
      codesep_start = op.end;
      exec = record { codesep_pos = index; tapscript_exec = m.exec.tapscript_exec };
    })
    else err bad_opcode

-- The arms that work on the stack's items.
unfoldable pub execute_items : Env → Op → Bool → ℕ → Machine → Outcome Machine
execute_items env op executing index m =
    if between Opcode.op_toaltstack Opcode.op_2swap op.opcode
    then stack_op_pairs op.opcode m
    else if between Opcode.op_ifdup Opcode.op_tuck op.opcode
    then on_stack (stack_op_singles op.opcode) m
    else if op.opcode == Opcode.op_size
    then on_stack size m
    else if op.opcode == Opcode.op_equal || op.opcode == Opcode.op_equalverify
    then on_stack (equal op.opcode) m
    else if is_unary op.opcode
    then on_stack (numeric_unary op.opcode) m
    else if is_binary op.opcode
    then on_stack (numeric_binary op.opcode) m
    else if op.opcode == Opcode.op_within
    then on_stack within m
    else if between Opcode.op_ripemd160 Opcode.op_hash256 op.opcode
    then on_stack (hash env.hashes op.opcode) m
    else execute_control env op executing index m

-- `Machine::execute`. The arms of its `match` are disjoint, so their order is free.
unfoldable pub execute : Env → Op → Bool → ℕ → Machine → Outcome Machine
execute env op executing index m =
    if op.opcode == Opcode.op_1negate || between Opcode.op_1 Opcode.op_16 op.opcode
    then on_stack (push_small op.opcode) m
    else if is_nop op.opcode
    then ok m
    else if op.opcode == Opcode.op_checksig || op.opcode == Opcode.op_checksigverify
    then checksig env op.opcode m
    else if op.opcode == Opcode.op_checksigadd
    then checksigadd env m
    else if op.opcode == Opcode.op_checkmultisig || op.opcode == Opcode.op_checkmultisigverify
    then checkmultisig env op.opcode m
    else execute_items env op executing index m

-- The opcode limit of legacy and v0 scripts.
unfoldable pub count_op : Env → ℕ → Machine → Outcome Machine
count_op env opcode m =
    if not (is_tapscript env.sig_version) && counts_toward_op_limit opcode
    then (do
      fail_if (ltb max_ops_per_script (m.op_count + 1)) op_count
      ok (record m { op_count = m.op_count + 1 }))
    else ok m

-- Push, dispatch or skip.
unfoldable pub dispatch : Env → Op → Reader → Machine → Outcome Machine
dispatch env op r m =
    let executing = all_true m.conditions in
    if executing && is_push op.opcode
    then on_stack (push op.payload) m
    else if executing || is_conditional op.opcode
    then (do index ← opcode_index r; execute env op executing index m)
    else ok m

-- The body of the loop, for an opcode that was read.
unfoldable pub step : Env → Op → Reader → Machine → Outcome Machine
step env op r m = do
  fail_if (ltb max_script_element_size (length op.payload)) push_size
  m₁ ← count_op env op.opcode m
  fail_if (is_disabled op.opcode) disabled_opcode
  m₂ ← dispatch env op r m₁
  fail_if (ltb max_stack_size (length m₂.stack + length m₂.altstack)) stack_size
  ok m₂

-- The body of the loop: what follows `next_op`, with the next round as a parameter.
unfoldable pub loop_round :
    (Reader → Machine → Outcome Machine) → Env → Machine → Next → Reader → Outcome Machine
loop_round next_round env m finished r = ok m
loop_round next_round env m (failed e) r = err e
loop_round next_round env m (yield op) r = do m' ← step env op r m; next_round r m'

-- The loop. Every round reads a byte at least, so one round more than the length of the script is
-- fuel enough.
unfoldable pub eval_loop : ℕ → Env → Reader → Machine → Outcome Machine
eval_loop zero env r m = panic
eval_loop (suc fuel) env r m = do
  (next, r') ← next_op r
  loop_round (λ r₁ m₁. eval_loop fuel env r₁ m₁) env m next r'

abbrev pub has_tapscript : ExecData → Bool
has_tapscript exec = elim exec.tapscript_exec [ none ↦ false | some t ↦ true ]

abbrev pub bool_eq : Bool → Bool → Bool
bool_eq true b = b
bool_eq false b = not b

unfoldable pub start_machine : Stack → ExecData → Machine
start_machine stack exec = record {
  stack = stack;
  altstack = stack_new;
  conditions = conditions_new;
  op_count = 0;
  codesep_start = 0;
  exec = record exec { codesep_pos = codeseparator_pos_none };
}

-- What follows the loop.
unfoldable pub finish : Machine → Outcome (Stack × ExecData)
finish m = do
  check (leb m.op_count op_count_max)
  fail_if (not (conditions_empty m.conditions)) unbalanced_conditional
  ok (m.stack, m.exec)

-- `eval_script`; the arguments but the stack and the execution data are fields of `env`. On
-- success the result holds the stack and the execution data that the source leaves behind its
-- `&mut` arguments; on an error their contents are not modelled, since no caller reads them.
unfoldable pub eval_script : Env → Stack → ExecData → Outcome (Stack × ExecData)
unfolding start_machine
eval_script env stack exec = do
  check (bool_eq (has_tapscript exec) (is_tapscript env.sig_version))
  fail_if (not (is_tapscript env.sig_version) && ltb max_script_size (length env.script))
      script_size
  m ← eval_loop (suc (length env.script)) env (reader_new env.script) (start_machine stack exec)
  finish m
