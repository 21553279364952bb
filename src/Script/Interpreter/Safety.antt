-- ===== src/Script/Interpreter/Safety.antt =====
-- `Machine::execute` keeps the machine well formed and does not panic.
use bitmigo.Prelude.{
  ℕ, ◌+◌, ◌≤◌, ◌^◌, ◌≡◌, Bool, true, false, not, [], ◌∷◌, length, arith, ◌==◌, ◌||◌, bit_and,
}
use bitmigo.Prelude.Int.{pos, negsuc}
use bitmigo.Script.Error.{
  invalid_altstack_operation, NoPanic, Safe-then, Outcome, ok, Safe, Safe-bind, Safe-if, fail_if,
  fail_if-Safe, ScriptError, ◌>>=◌, ◌>>◌, negative_locktime, unsatisfied_locktime,
}
use bitmigo.Script.Num.{ScriptNum, decode, from_i64, is_negative, unsigned_abs}
use bitmigo.Script.Num.Bounds.{Within, decode-Safe5}
use bitmigo.Script.Stack.{Stack, require, push, pop, top}
use bitmigo.Script.Stack.Safety.{
  IsItem, IsStack, IsPopped, require-Safe, top-Safe, pop-Safe, push-Safe, encode-push-Safe,
}
use bitmigo.Script.Opcode
use bitmigo.Script.Opcode.{between, small_integer}
use bitmigo.Script.Flags.{contains, flag_checklocktimeverify, flag_checksequenceverify}
use bitmigo.Script.Machine.{CheckerSafe, Env, Machine}
use bitmigo.Script.StackOps.{
  stack_op_pairs, drop2, dup2, dup3, over2, rot2, swap2, on_stack, to_altstack, from_altstack,
}
use bitmigo.Script.StackOps.Safety.{
  drop2-Safe, dup2-Safe, dup3-Safe, over2-Safe, rot2-Safe, swap2-Safe,
}
use bitmigo.Script.Signatures.Safety.{IsMachine, Kept, with_stack}
use bitmigo.Script.Interpreter.{
  check_locktime, check_sequence, sequence_locktime_disable_flag, branch_value, verify_op,
  push_small,
}

pub verify_op-Safe : (s : Stack) → IsStack s → Safe IsStack (verify_op s)
unfolding verify_op require top pop
verify_op-Safe [] h = ground arith
verify_op-Safe (a ∷ s) h = ground arith

pub push_small-Safe :
    (opcode : ℕ) (s : Stack)
    → (opcode == Opcode.op_1negate || between Opcode.op_1 Opcode.op_16 opcode) ≡ true
    → IsStack s
    → Safe IsStack (push_small opcode s)
unfolding push_small
push_small-Safe opcode s o h =
    Safe-bind (Within 17) IsStack (small_integer opcode) _ (unfold small_integer in ground arith)
      λ n hn.
        Safe-then IsStack (from_i64 n) _ (unfold from_i64 in ground arith)
          λ v. encode-push-Safe v s h

pub branch_value-Safe :
    (env : Env) (opcode : ℕ) (s : Stack)
    → IsStack s
    → Safe (λ p. IsStack p.1) (branch_value env opcode s)
unfolding branch_value require top pop
branch_value-Safe env opcode [] h = ground arith
branch_value-Safe env opcode (a ∷ s) h = ground arith

module _ (env : Env) (cs : CheckerSafe env.checker) where
  -- An opcode leaves a well-formed machine, at most one condition deeper.
  abbrev pub Ran : Machine → Machine → Type 0
  Ran m m' = IsMachine env m' × (m'.conditions.depth ≤ m.conditions.depth + 1)

  pub Kept-Ran : (m m' : Machine) → Kept env cs m m' → Ran m m'
  Kept-Ran m m' h = (h.0, ground arith)

  pub on_stack-Safe :
      (f : Stack → Outcome Stack) (m : Machine)
      → IsMachine env m
      → Safe IsStack (f m.stack)
      → Safe (Ran m) (on_stack f m)
  on_stack-Safe f m h hf =
      Safe-bind IsStack (Ran m) (f m.stack) _ hf λ s hs. (with_stack env cs m s h hs, omega arith)

  with_stacks :
      (m : Machine) (s t : Stack)
      → IsMachine env m
      → IsStack s
      → IsStack t
      → IsMachine env (record m { stack = s; altstack = t })
  with_stacks m s t h hs ht = record {
    stack_ok = hs;
    altstack_ok = ht;
    ops_ok = h.ops_ok;
    separator_ok = h.separator_ok;
    exec_ok = h.exec_ok;
  }

  to_altstack-Safe : (m : Machine) → IsMachine env m → Safe (Ran m) (to_altstack m)
  unfolding to_altstack
  to_altstack-Safe m h = Safe-bind _ (Ran m) (require 1 m.stack) _ (require-Safe 1 m.stack) λ _ l.
      Safe-bind (IsPopped m.stack) (Ran m) (pop m.stack) _ (pop-Safe m.stack h.stack_ok l) λ p hp.
        Safe-bind IsStack (Ran m) (push p.0 m.altstack) _
          (push-Safe p.0 m.altstack hp.0 h.altstack_ok)
          λ t ht. (with_stacks m p.1 t h hp.1 ht, omega arith)

  from_altstack-Safe : (m : Machine) → IsMachine env m → Safe (Ran m) (from_altstack m)
  unfolding from_altstack
  from_altstack-Safe m h =
      Safe-bind _ (Ran m) (fail_if (length m.altstack == 0) invalid_altstack_operation) _
        (fail_if-Safe _ invalid_altstack_operation)
        λ _ e.
          Safe-bind (IsPopped m.altstack) (Ran m) (pop m.altstack) _
            (pop-Safe m.altstack h.altstack_ok (ground arith))
            λ p hp.
              Safe-bind IsStack (Ran m) (push p.0 m.stack) _ (push-Safe p.0 m.stack hp.0 h.stack_ok)
                λ s hs. (with_stacks m s p.1 h hs hp.1, omega arith)

  pub pairs-Safe :
      (opcode : ℕ) (m : Machine)
      → IsMachine env m
      → between Opcode.op_toaltstack Opcode.op_2swap opcode ≡ true
      → Safe (Ran m) (stack_op_pairs opcode m)
  unfolding stack_op_pairs
  pairs-Safe opcode m h b = ground (
    arith,
    to_altstack-Safe m h,
    from_altstack-Safe m h,
    on_stack-Safe drop2 m h (drop2-Safe m.stack h.stack_ok),
    on_stack-Safe dup2 m h (dup2-Safe m.stack h.stack_ok),
    on_stack-Safe dup3 m h (dup3-Safe m.stack h.stack_ok),
    on_stack-Safe over2 m h (over2-Safe m.stack h.stack_ok),
    on_stack-Safe rot2 m h (rot2-Safe m.stack h.stack_ok),
    on_stack-Safe swap2 m h (swap2-Safe m.stack h.stack_ok),
  )

  locktime-NoPanic :
      (n : ScriptNum)
      → is_negative n ≡ false
      → Within (2 ^ 39) n
      → NoPanic (env.checker.check_locktime n)
  locktime-NoPanic (pos n) e h = cs.locktime_safe n (omega arith)
  locktime-NoPanic (negsuc n) e h = cc

  sequence-NoPanic :
      (n : ScriptNum)
      → is_negative n ≡ false
      → Within (2 ^ 39) n
      → NoPanic (env.checker.check_sequence n)
  sequence-NoPanic (pos n) e h = cs.sequence_safe n (omega arith)
  sequence-NoPanic (negsuc n) e h = cc

  asked-Safe :
      (m : Machine) (o : Outcome Bool) (e : ScriptError)
      → IsMachine env m
      → NoPanic o
      → Safe (Ran m) (do satisfied ← o; fail_if (not satisfied) e; ok m)
  asked-Safe m o e h k =
      Safe-then (Ran m) o _ k
        λ b. Safe-bind _ (Ran m) (fail_if (not b) e) _ (fail_if-Safe _ e) λ _ _. (h, omega arith)

  pub check_locktime-Safe : (m : Machine) → IsMachine env m → Safe (Ran m) (check_locktime env m)
  unfolding check_locktime
  check_locktime-Safe m h =
      Safe-if (Ran m) (not (contains env.flags flag_checklocktimeverify)) _ _
        (λ _. (h, omega arith))
        λ _. Safe-bind _ (Ran m) (require 1 m.stack) _ (require-Safe 1 m.stack) λ _ l.
          Safe-bind IsItem (Ran m) (top 1 m.stack) _ (top-Safe 1 m.stack h.stack_ok (omega arith) l)
            λ a ha. Safe-bind _ (Ran m) (decode a 5) _ (decode-Safe5 a ha.item_bytes) λ n hn.
              Safe-bind _ (Ran m) (fail_if (is_negative n) negative_locktime) _ (fail_if-Safe _ _)
                λ _ e.
                  asked-Safe m (env.checker.check_locktime n) unsatisfied_locktime h
                    (locktime-NoPanic n e hn)

  pub check_sequence-Safe : (m : Machine) → IsMachine env m → Safe (Ran m) (check_sequence env m)
  unfolding check_sequence
  check_sequence-Safe m h =
      Safe-if (Ran m) (not (contains env.flags flag_checksequenceverify)) _ _
        (λ _. (h, omega arith))
        λ _. Safe-bind _ (Ran m) (require 1 m.stack) _ (require-Safe 1 m.stack) λ _ l.
          Safe-bind IsItem (Ran m) (top 1 m.stack) _ (top-Safe 1 m.stack h.stack_ok (omega arith) l)
            λ a ha. Safe-bind _ (Ran m) (decode a 5) _ (decode-Safe5 a ha.item_bytes) λ n hn.
              Safe-bind _ (Ran m) (fail_if (is_negative n) negative_locktime) _ (fail_if-Safe _ _)
                λ _ e.
                  Safe-if (Ran m)
                    (not (bit_and (unsigned_abs n) sequence_locktime_disable_flag == 0)) _ _
                    (λ _. (h, omega arith))
                    λ _.
                      asked-Safe m (env.checker.check_sequence n) unsatisfied_locktime h
                        (sequence-NoPanic n e hn)
