-- ===== src/Script/Interpreter/Total.antt =====
-- `eval_script` as a whole: it ends, does not panic, and keeps the limits.
use bitmigo.Prelude.{
  ℕ, zero, suc, ◌+◌, ◌≤◌, ◌<◌, ◌^◌, ◌≡◌, ◌∙◌, refl, ap, sym, Bool, true, false, not, length, arith,
  ltb, ◌||◌, ◌&&◌, Option, none, some,
}
use mathlib.Core.Path.{subst}
use bitmigo.Script.Error.{
  NoPanic, Safe-then, Outcome, ok, Safe, Safe-bind, Safe-mono, Safe-if, fail_if, fail_if-Safe,
  check, push_size, op_count, disabled_opcode, stack_size, script_size,
}
use bitmigo.Script.Num.{Bytes}
use bitmigo.Script.Num.Value.{IsBytes}
use bitmigo.Script.Stack.{Stack, push}
use bitmigo.Script.Stack.Safety.{IsStack, push-Safe}
use bitmigo.Script.Opcode.{is_push, is_disabled, is_conditional, counts_toward_op_limit}
use bitmigo.Script.Reader.{
  Op, Reader, Next, finished, yield, failed, next_op, opcode_index, reader_new,
}
use bitmigo.Script.Reader.Safety.{IsReader, Advances, next_op-Safe}
use bitmigo.Script.Conditions.{all_true, conditions_new}
use bitmigo.Script.Machine.{is_tapscript, CheckerSafe, Env, Machine, ExecData, TapscriptExec}
use bitmigo.Script.Numeric.Safety.{HashesSafe}
use bitmigo.Script.Signatures.Safety.{IsMachine, IsExec}
use bitmigo.Script.Interpreter.{
  count_op, dispatch, step, loop_round, eval_loop, has_tapscript, bool_eq, start_machine, finish,
  eval_script,
}
use bitmigo.Script.Interpreter.Safety.{Ran, on_stack-Safe}
use bitmigo.Script.Interpreter.Execute.{IsReady, execute-Safe}

module _ (env : Env) (cs : CheckerSafe env.checker) (hs : HashesSafe env.hashes) where
  -- Only the opcode count has changed.
  abbrev Counted : Machine → Machine → Type 0
  Counted m m' =
      IsMachine env m'
      × (m'.stack ≡ m.stack)
      × (m'.altstack ≡ m.altstack)
      × (m'.conditions ≡ m.conditions)

  count_op-Safe :
      (opcode : ℕ) (m : Machine) → IsMachine env m → Safe (Counted m) (count_op env opcode m)
  unfolding count_op
  count_op-Safe opcode m h =
      Safe-if (Counted m) (not (is_tapscript env.sig_version) && counts_toward_op_limit opcode) _
        (ok m)
        (λ _.
          Safe-bind _ (Counted m) (fail_if (ltb 201 (m.op_count + 1)) op_count) _
            (fail_if-Safe _ op_count)
            λ _ e. (
              record {
                stack_ok = h.stack_ok;
                altstack_ok = h.altstack_ok;
                ops_ok = ground arith;
                separator_ok = h.separator_ok;
                exec_ok = h.exec_ok;
              },
              refl,
              refl,
              refl,
            ))
        λ _. (h, refl, refl, refl)

  module _ (op : Op) (r : Reader) (inside : op.end ≤ length env.script) (bytes : IsBytes op.payload)
      (some_read : 0 < r.ops_read) where
    dispatch-Safe :
        (m : Machine)
        → IsReady env m
        → length op.payload ≤ 520
        → Safe (Ran env cs m) (dispatch env op r m)
    unfolding dispatch
    dispatch-Safe m h l =
        let executing : Bool = all_true m.conditions in
        Safe-if (Ran env cs m) (executing && is_push op.opcode) _ _
          (λ _. on_stack-Safe env cs (push op.payload) m h.machine_ok (
            push-Safe op.payload m.stack (record { item_bytes = bytes; item_length = l })
              h.machine_ok.stack_ok))
          λ _.
            Safe-if (Ran env cs m) (executing || is_conditional op.opcode) _ (ok m)
              (λ _.
                Safe-then (Ran env cs m) (opcode_index r) _ (unfold opcode_index in ground arith)
                  λ index. execute-Safe env cs hs op executing index inside m h)
              λ _. (h.machine_ok, omega arith)

    -- A round keeps the machine well formed and within the stack limit.
    abbrev Stepped : Machine → Machine → Type 0
    Stepped m m' =
        IsMachine env m'
        × (length m'.stack + length m'.altstack ≤ 1000)
        × (m'.conditions.depth ≤ m.conditions.depth + 1)

    ready : (m m' : Machine) → IsReady env m → Counted m m' → IsReady env m'
    ready m m' h c = record {
      machine_ok = c.0;
      sizes_ok =
          omega
            (arith, ap (λ (s : Stack). length s) c.1, ap (λ (s : Stack). length s) c.2, h.sizes_ok);
      depth_ok = ground (arith, h.depth_ok);
    }

    step-Safe : (m : Machine) → IsReady env m → Safe (Stepped m) (step env op r m)
    unfolding step
    step-Safe m h =
        Safe-bind _ (Stepped m) (fail_if (ltb 520 (length op.payload)) push_size) _
          (fail_if-Safe _ push_size)
          λ _ e.
            Safe-bind (Counted m) (Stepped m) (count_op env op.opcode m) _
              (count_op-Safe op.opcode m h.machine_ok)
              λ m₁ c.
                Safe-bind _ (Stepped m) (fail_if (is_disabled op.opcode) disabled_opcode) _
                  (fail_if-Safe _ disabled_opcode)
                  λ _ _.
                    Safe-bind (Ran env cs m₁) (Stepped m) (dispatch env op r m₁) _
                      (dispatch-Safe m₁ (ready m m₁ h c) (ground arith))
                      λ m₂ d.
                        Safe-bind _ (Stepped m)
                          (fail_if (ltb 1000 (length m₂.stack + length m₂.altstack)) stack_size) _
                          (fail_if-Safe _ stack_size)
                          λ _ limit. (d.0, ground arith, ground (arith, d.1))

  -- The loop's invariant: the nest is no deeper than the bytes read. The limit is that of the stack
  -- before the first opcode, and 1,000 after it.
  record IsLoop (limit : ℕ) (r : Reader) (m : Machine) : Type 0 where
    reader_ok : IsReader r
    script_ok : IsBytes r.script
    length_ok : length r.script ≡ length env.script
    machine_ok : IsMachine env m
    sizes_ok : length m.stack + length m.altstack ≤ limit
    depth_ok : m.conditions.depth ≤ r.position

  -- The machine when the script ends.
  abbrev Ended : ℕ → Machine → Type 0
  Ended limit m = IsMachine env m × (length m.stack + length m.altstack ≤ limit)

  loop-IsReady :
      (limit : ℕ) (r : Reader) (m : Machine)
      → limit ≤ 2 ^ 32
      → IsLoop limit r m
      → r.position ≤ 10000
      → IsReady env m
  loop-IsReady limit r m small h l = record {
    machine_ok = h.machine_ok;
    sizes_ok = omega (arith, h.sizes_ok);
    depth_ok = omega (arith, h.depth_ok);
  }

  module _ (limit : ℕ) (large : 1000 ≤ limit) (small : limit ≤ 2 ^ 32)
      (l32 : length env.script < 2 ^ 32) (l10001 : length env.script ≤ 10001) where
    round-Safe :
        (next_round : Reader → Machine → Outcome Machine) (r : Reader) (m : Machine) (next : Next)
        (r' : Reader)
        → IsLoop limit r m
        → Advances r (next, r')
        → ((m' : Machine)
            → IsLoop limit r' m'
            → r.position < r'.position
            → Safe (Ended limit) (next_round r' m'))
        → Safe (Ended limit) (loop_round next_round env m next r')
    unfolding loop_round
    round-Safe next_round r m finished r' h a k = (h.machine_ok, h.sizes_ok)
    round-Safe next_round r m (failed e) r' h a k = tt
    round-Safe next_round r m (yield op) r' h a k =
        let at_end : op.end ≤ length env.script = omega (arith, a.2, a.4, h.length_ok) in
        let before : r.position ≤ 10000 = omega (arith, a.1, a.2, h.length_ok) in
        Safe-bind (Stepped op r' at_end a.5 (omega (arith, a.3)) m) (Ended limit) (step env op r' m)
          _
          (step-Safe op r' at_end a.5 (omega (arith, a.3)) m
            (loop-IsReady limit r m small h before))
          λ m' d.
            k m'
              (record {
                reader_ok = record {
                  inside = omega (arith, a.2, ap (λ (s : Bytes). length s) a.0);
                  counted = omega (arith, a.1, a.3, h.reader_ok);
                };
                script_ok = subst IsBytes (sym a.0) h.script_ok;
                length_ok = ap (λ (s : Bytes). length s) a.0 ∙ h.length_ok;
                machine_ok = d.0;
                sizes_ok = omega (arith, d.1);
                depth_ok = omega (arith, d.2, a.1, h.depth_ok);
              })
              a.1

    eval_loop-Safe :
        (fuel : ℕ) (r : Reader) (m : Machine)
        → IsLoop limit r m
        → length env.script < fuel + r.position
        → Safe (Ended limit) (eval_loop fuel env r m)
    unfolding eval_loop
    eval_loop-Safe zero r m h f = absurd (omega (arith, h.reader_ok.inside, h.length_ok))
    eval_loop-Safe (suc fuel) r m h f =
        Safe-bind (Advances r) (Ended limit) (next_op r) _
          (next_op-Safe r h.reader_ok h.script_ok (omega (arith, h.length_ok)))
          λ p a.
            round-Safe (λ r₁ m₁. eval_loop fuel env r₁ m₁) r m p.0 p.1 h a
              λ m' h' lt. eval_loop-Safe fuel p.1 m' h' (omega (arith, lt))

  -- What is left of a well-formed machine.
  abbrev Result : ℕ → Stack × ExecData → Type 0
  Result limit p = IsStack p.0 × (length p.0 ≤ limit) × IsExec env.sig_version p.1.tapscript_exec

  finish-Safe : (limit : ℕ) (m : Machine) → Ended limit m → Safe (Result limit) (finish m)
  unfolding finish
  finish-Safe limit m h = ground (arith, h.0.ops_ok, h.0.exec_ok)

  start_ok :
      (limit : ℕ) (stack : Stack) (exec : ExecData)
      → IsStack stack
      → length stack ≤ limit
      → IsExec env.sig_version exec.tapscript_exec
      → IsBytes env.script
      → IsLoop limit (reader_new env.script) (start_machine stack exec)
  unfolding reader_new start_machine conditions_new
  start_ok limit stack exec h l e b = record {
    reader_ok = record { inside = omega arith; counted = omega arith };
    script_ok = b;
    length_ok = refl;
    machine_ok = record {
      stack_ok = h;
      altstack_ok = tt;
      ops_ok = omega arith;
      separator_ok = omega arith;
      exec_ok = e;
    };
    sizes_ok = omega arith;
    depth_ok = omega arith;
  }

  version_agrees :
      (exec : ExecData)
      → IsExec env.sig_version exec.tapscript_exec
      → NoPanic (check (bool_eq (has_tapscript exec) (is_tapscript env.sig_version)))
  version_agrees exec h = go exec.tapscript_exec h
    where
      go :
          (o : Option TapscriptExec)
          → IsExec env.sig_version o
          → NoPanic (
              check
                (bool_eq (elim o [ none ↦ false | some t ↦ true ]) (is_tapscript env.sig_version)))
      go none e = ground arith
      go (some t) e = ground (arith, e.0)

-- The same within any limit of 1,000 elements or more on the stack that it starts from.
pub eval_script-within :
    (limit : ℕ) (env : Env) (stack : Stack) (exec : ExecData)
    → 1000 ≤ limit
    → limit ≤ 2 ^ 32
    → CheckerSafe env.checker
    → HashesSafe env.hashes
    → IsBytes env.script
    → length env.script < 2 ^ 32
    → (is_tapscript env.sig_version ≡ true → length env.script ≤ 10001)
    → IsStack stack
    → length stack ≤ limit
    → IsExec env.sig_version exec.tapscript_exec
    → Safe
        (λ p. IsStack p.0 × (length p.0 ≤ limit) × IsExec env.sig_version p.1.tapscript_exec)
        (eval_script env stack exec)
unfolding eval_script
eval_script-within limit env stack exec large small cs hs b l32 l10001 h l e =
    Safe-then (Result env cs hs limit)
      (check (bool_eq (has_tapscript exec) (is_tapscript env.sig_version))) _
      (version_agrees env cs hs exec e)
      λ _.
        Safe-bind _ (Result env cs hs limit)
          (fail_if (not (is_tapscript env.sig_version) && ltb 10000 (length env.script))
            script_size)
          _ (fail_if-Safe _ script_size)
          λ _ fits.
            let bound : length env.script ≤ 10001 = ground (arith, l10001) in
            Safe-bind (Ended env cs hs limit) (Result env cs hs limit)
              (eval_loop (suc (length env.script)) env (reader_new env.script)
                (start_machine stack exec))
              _
              (eval_loop-Safe env cs hs limit large small l32 bound (suc (length env.script))
                (reader_new env.script) (start_machine stack exec)
                (start_ok env cs hs limit stack exec h l e b) (unfold reader_new in omega arith))
              (finish-Safe env cs hs limit)

-- `eval_script` returns on every script of bytes below 2^32 that, if it is a tapscript, has 10,001
-- bytes at most: it does not panic, its loop ends, and on success every element of the stack has
-- 520 bytes at most and there are 1,000 elements at most. The stack that it starts from must be
-- within these limits, the execution data must fit the signature version, and the checker and the
-- hash functions must answer as the interfaces say.
pub eval_script-Safe :
    (env : Env) (stack : Stack) (exec : ExecData)
    → CheckerSafe env.checker
    → HashesSafe env.hashes
    → IsBytes env.script
    → length env.script < 2 ^ 32
    → (is_tapscript env.sig_version ≡ true → length env.script ≤ 10001)
    → IsStack stack
    → length stack ≤ 1000
    → IsExec env.sig_version exec.tapscript_exec
    → Safe (λ p. IsStack p.0 × (length p.0 ≤ 1000)) (eval_script env stack exec)
eval_script-Safe env stack exec cs hs b l32 l10001 h l e =
    Safe-mono (Result env cs hs 1000) (λ p. IsStack p.0 × (length p.0 ≤ 1000))
      (eval_script env stack exec) (λ p r. (r.0, r.1))
      (eval_script-within 1000 env stack exec (omega arith) (omega arith) cs hs b l32 l10001 h l e)
