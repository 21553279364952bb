-- ===== src/Script/Interpreter/Execute.antt =====
-- The dispatch of `Machine::execute`, with the conditionals.
use bitmigo.Prelude.{ℕ, ◌+◌, ◌≤◌, ◌^◌, ◌≡◌, Bool, false, length, arith, ◌==◌, if◌then◌else◌, ◌||◌}
use bitmigo.Script.Error.{
  Outcome, ok, Safe, Safe-bind, Safe-if, Safe-mono, fail_if, fail_if-Safe, unbalanced_conditional,
}
use bitmigo.Script.Stack.{Stack}
use bitmigo.Script.Stack.Safety.{IsStack}
use bitmigo.Script.Opcode
use bitmigo.Script.Opcode.{between}
use bitmigo.Script.Reader.{Op}
use bitmigo.Script.Conditions.{
  ConditionStack, conditions_push, conditions_pop, toggle_top, conditions_empty,
}
use bitmigo.Script.Machine.{CheckerSafe, Env, Machine}
use bitmigo.Script.StackOps.{stack_op_singles, equal, on_stack}
use bitmigo.Script.StackOps.Safety.{singles-Safe, equal-Safe}
use bitmigo.Script.Numeric.{numeric_unary, numeric_binary, within, size, hash, is_unary, is_binary}
use bitmigo.Script.Numeric.Safety.{
  numeric_unary-Safe, numeric_binary-Safe, within-Safe, size-Safe, HashesSafe, hash-Safe,
}
use bitmigo.Script.Signatures.Safety.{IsMachine, Kept, checksig-Safe}
use bitmigo.Script.Signatures.Multisig.{checkmultisig-Safe, checksigadd-Safe}
use bitmigo.Script.Interpreter.{
  branch_value, branch, else_op, endif_op, verify_op, push_small, is_nop, execute_control,
  execute_items, execute,
}
use bitmigo.Script.Interpreter.Safety.{
  verify_op-Safe, push_small-Safe, branch_value-Safe, Ran, Kept-Ran, on_stack-Safe, pairs-Safe,
  check_locktime-Safe, check_sequence-Safe,
}

conditions_push-Safe :
    (b : Bool) (c : ConditionStack)
    → c.depth ≤ 10000
    → Safe (λ d. d.depth ≡ c.depth + 1) (conditions_push b c)
unfolding conditions_push
conditions_push-Safe b c h = ground arith

toggle_top-Safe :
    (c : ConditionStack) → conditions_empty c ≡ false → Safe (λ d. d.depth ≤ c.depth) (toggle_top c)
unfolding toggle_top conditions_empty
toggle_top-Safe c h = ground arith

conditions_pop-Safe :
    (c : ConditionStack)
    → conditions_empty c ≡ false
    → Safe (λ d. d.depth ≤ c.depth) (conditions_pop c)
unfolding conditions_pop conditions_empty
conditions_pop-Safe c h = ground arith

-- A machine at the top of a round: well formed, within the stack limit, not too deep.
pub record IsReady (env : Env) (m : Machine) : Type 0 where
  pub machine_ok : IsMachine env m
  pub sizes_ok : length m.stack + length m.altstack ≤ 2 ^ 32
  pub depth_ok : m.conditions.depth ≤ 10000

module _ (env : Env) (cs : CheckerSafe env.checker) (hs : HashesSafe env.hashes) where
  with_conditions :
      (m : Machine) (s : Stack) (c : ConditionStack)
      → IsMachine env m
      → IsStack s
      → IsMachine env (record m { stack = s; conditions = c })
  with_conditions m s c h k = record {
    stack_ok = k;
    altstack_ok = h.altstack_ok;
    ops_ok = h.ops_ok;
    separator_ok = h.separator_ok;
    exec_ok = h.exec_ok;
  }

  branch-Safe :
      (opcode : ℕ) (executing : Bool) (m : Machine)
      → IsReady env m
      → Safe (Ran env cs m) (branch env opcode executing m)
  unfolding branch
  branch-Safe opcode executing m h =
      Safe-bind (λ p. IsStack p.1) (Ran env cs m)
        (if executing then branch_value env opcode m.stack else ok (false, m.stack)) _
        (Safe-if (λ p. IsStack p.1) executing _ _
          (λ _. branch_value-Safe env opcode m.stack h.machine_ok.stack_ok)
          λ _. h.machine_ok.stack_ok)
        λ p hp.
          Safe-bind _ (Ran env cs m) (conditions_push p.0 m.conditions) _
            (conditions_push-Safe p.0 m.conditions h.depth_ok)
            λ c hc. (with_conditions m p.1 c h.machine_ok hp, omega arith)

  else-Safe : (m : Machine) → IsReady env m → Safe (Ran env cs m) (else_op m)
  unfolding else_op
  else-Safe m h =
      Safe-bind _ (Ran env cs m) (fail_if (conditions_empty m.conditions) unbalanced_conditional) _
        (fail_if-Safe _ unbalanced_conditional)
        λ _ e.
          Safe-bind _ (Ran env cs m) (toggle_top m.conditions) _ (toggle_top-Safe m.conditions e)
            λ c hc. (with_conditions m m.stack c h.machine_ok h.machine_ok.stack_ok, omega arith)

  endif-Safe : (m : Machine) → IsReady env m → Safe (Ran env cs m) (endif_op m)
  unfolding endif_op
  endif-Safe m h =
      Safe-bind _ (Ran env cs m) (fail_if (conditions_empty m.conditions) unbalanced_conditional) _
        (fail_if-Safe _ unbalanced_conditional)
        λ _ e.
          Safe-bind _ (Ran env cs m) (conditions_pop m.conditions) _
            (conditions_pop-Safe m.conditions e)
            λ c hc. (with_conditions m m.stack c h.machine_ok h.machine_ok.stack_ok, omega arith)

  separated :
      (m : Machine) (start index : ℕ)
      → IsReady env m
      → start ≤ length env.script
      → Ran env cs m (record m {
        codesep_start = start;
        exec = record { codesep_pos = index; tapscript_exec = m.exec.tapscript_exec };
      })
  separated m start index h l = (
    record {
      stack_ok = h.machine_ok.stack_ok;
      altstack_ok = h.machine_ok.altstack_ok;
      ops_ok = h.machine_ok.ops_ok;
      separator_ok = l;
      exec_ok = h.machine_ok.exec_ok;
    },
    omega arith,
  )

  module _ (op : Op) (executing : Bool) (index : ℕ) (inside : op.end ≤ length env.script)
      (m : Machine) (h : IsReady env m) where
    control-Safe : Safe (Ran env cs m) (execute_control env op executing index m)
    unfolding execute_control
    control-Safe = ground (
      arith,
      check_locktime-Safe env cs m h.machine_ok,
      check_sequence-Safe env cs m h.machine_ok,
      branch-Safe op.opcode executing m h,
      else-Safe m h,
      endif-Safe m h,
      on_stack-Safe env cs verify_op m h.machine_ok (verify_op-Safe m.stack h.machine_ok.stack_ok),
      separated m op.end index h inside,
    )

    -- The last arms of `execute_items`.
    items_rest-Safe : Safe (Ran env cs m) (
        if is_binary op.opcode
        then on_stack (numeric_binary op.opcode) m
        else if op.opcode == Opcode.op_within
        then on_stack within m
        else if between Opcode.op_ripemd160 Opcode.op_hash256 op.opcode
        then on_stack (hash env.hashes op.opcode) m
        else execute_control env op executing index m)
    items_rest-Safe =
        let R : Machine → Type 0 = Ran env cs m in
        let good : IsStack m.stack = h.machine_ok.stack_ok in
        Safe-if R (is_binary op.opcode) _ _
          (λ e.
            on_stack-Safe env cs (numeric_binary op.opcode) m h.machine_ok
              (numeric_binary-Safe op.opcode m.stack e good))
          λ _.
            Safe-if R (op.opcode == Opcode.op_within) _ _
              (λ _. on_stack-Safe env cs within m h.machine_ok (within-Safe m.stack good))
              λ _.
                Safe-if R (between Opcode.op_ripemd160 Opcode.op_hash256 op.opcode) _ _
                  (λ e.
                    on_stack-Safe env cs (hash env.hashes op.opcode) m h.machine_ok
                      (hash-Safe env.hashes op.opcode m.stack hs e good))
                  λ _. control-Safe

    short : length m.stack ≤ 2 ^ 32
    short = omega (arith, h.sizes_ok)

    items-Safe : Safe (Ran env cs m) (execute_items env op executing index m)
    unfolding execute_items
    items-Safe =
        let R : Machine → Type 0 = Ran env cs m in
        let run : (f : Stack → Outcome Stack) → Safe IsStack (f m.stack) → Safe R (on_stack f m) =
          λ f. on_stack-Safe env cs f m h.machine_ok in
        let good : IsStack m.stack = h.machine_ok.stack_ok in
        Safe-if R (between Opcode.op_toaltstack Opcode.op_2swap op.opcode) _ _
          (pairs-Safe env cs op.opcode m h.machine_ok)
          λ _.
            Safe-if R (between Opcode.op_ifdup Opcode.op_tuck op.opcode) _ _
              (λ e. run (stack_op_singles op.opcode) (singles-Safe op.opcode m.stack short good e))
              λ _.
                Safe-if R (op.opcode == Opcode.op_size) _ _ (λ _. run size (size-Safe m.stack good))
                  λ _.
                    Safe-if R (op.opcode == Opcode.op_equal || op.opcode == Opcode.op_equalverify) _
                      _ (λ _. run (equal op.opcode) (equal-Safe op.opcode m.stack good))
                      λ _.
                        Safe-if R (is_unary op.opcode) _ _
                          (λ e.
                            run (numeric_unary op.opcode)
                              (numeric_unary-Safe op.opcode m.stack e good))
                          λ _. items_rest-Safe

    -- On a machine that is well formed, with 2^32 elements at most and 10,000 conditions at most,
    -- with a checker and hash functions that answer as the interfaces say, every opcode whose end
    -- is inside the script, executed or not, does not panic; a machine that it returns is well
    -- formed and one condition deeper at most.
    pub execute-Safe : Safe (Ran env cs m) (execute env op executing index m)
    unfolding execute
    execute-Safe =
        let R : Machine → Type 0 = Ran env cs m in
        let ok_m : IsMachine env m = h.machine_ok in
        Safe-if R (op.opcode == Opcode.op_1negate || between Opcode.op_1 Opcode.op_16 op.opcode) _ _
          (λ e.
            on_stack-Safe env cs (push_small op.opcode) m ok_m
              (push_small-Safe op.opcode m.stack e ok_m.stack_ok))
          λ _.
            Safe-if R (is_nop op.opcode) (ok m) _ (λ _. (ok_m, omega arith))
              λ _.
                Safe-if R (op.opcode == Opcode.op_checksig || op.opcode == Opcode.op_checksigverify)
                  _ _ (λ _. kept _ (checksig-Safe env cs op.opcode m ok_m))
                  λ _.
                    Safe-if R (op.opcode == Opcode.op_checksigadd) _ _
                      (λ _. kept _ (checksigadd-Safe env cs m ok_m))
                      λ _.
                        Safe-if R
                          (op.opcode == Opcode.op_checkmultisig
                            || op.opcode == Opcode.op_checkmultisigverify)
                          _ _ (λ _. kept _ (checkmultisig-Safe env cs op.opcode m ok_m))
                          λ _. items-Safe
      where
        kept : (o : Outcome Machine) → Safe (Kept env cs m) o → Safe (Ran env cs m) o
        kept o k = Safe-mono (Kept env cs m) (Ran env cs m) o (Kept-Ran env cs m) k
