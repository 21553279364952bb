-- ===== src/Script/Verify/Total.antt =====
-- `verify_script` as a whole: every script, witness and flag set that the node gives it gets a
-- verdict, and no assertion on the way fails (verify.rs).
use bitmigo.Prelude.{
  ℕ, ◌≤◌, ◌<◌, ◌^◌, ◌≡◌, refl, sym, ap, ◌∙◌, true, false, not, ◌&&◌, List, [], ◌∷◌, Option, none,
  some, ◌==◌, if◌then◌else◌, length, arith, Bool-cases, inl, inr,
}
use mathlib.Core.Path.{subst}
use bitmigo.Script.Error.{
  ok, err, ◌>>=◌, Safe, Safe-bind, Safe-if, Safe-mono, Safe-then, NoPanic, NoPanic-of, fail_if,
  fail_if-Safe, invalid_stack_operation, witness_malleated, witness_malleated_p2sh, sig_pushonly,
  witness_unexpected,
}
use bitmigo.Script.Num.{Bytes}
use bitmigo.Script.Num.Value.{All, IsBytes}
use bitmigo.Script.Stack.{Stack, stack_new, pop, require}
use bitmigo.Script.Stack.Safety.{IsItem, IsStack}
use bitmigo.Script.Opcode.{is_push, is_disabled, is_conditional, counts_toward_op_limit}
use bitmigo.Script.Flags.{contains, flag_p2sh, flag_witness}
use bitmigo.Script.Reader.{
  Op, reader_new, next_op, read_op, after_read, take_op, yield, opcode_index, push_encoding,
}
use bitmigo.Script.Conditions.{conditions_new, all_true}
use bitmigo.Script.Machine.{base, ExecData, exec_legacy, Env}
use bitmigo.Script.Numeric.{hash}
use bitmigo.Script.Signatures.Safety.{IsExec, push_encoding-Safe}
use bitmigo.Script.Interpreter.{
  eval_script, eval_loop, loop_round, step, count_op, dispatch, execute, execute_items,
  start_machine, has_tapscript,
}
use bitmigo.Script.Interpreter.Total.{eval_script-within}
use bitmigo.Script.Programs.{is_pay_to_script_hash, witness_program, is_push_only}
use bitmigo.Script.Programs.Safety.{scans-NoPanic}
use bitmigo.Script.Programs.Witness.{IsProgram, witness_program-Safe, program_bytes}
use bitmigo.Script.StackOps.{bytes_eq}
use bitmigo.Script.Verify.{
  Rules, env_of, ends_true, verify_witness_program, verify_wrapped, verify_redeem_script,
  verify_native, verify_p2sh, verify_programs, check_flags, verify_script,
}
use bitmigo.Script.Verify.Witness.{program-Safe}
use bitmigo.Script.Verify.Items.{IsWitnessItem, ends_true-Safe, RulesSafe}

-- `OP_HASH160` on the empty stack.
hash160_step :
    (env : Env) (exec : ExecData) (op : Op)
    → op.opcode ≡ 0xa9
    → op.payload ≡ []
    → step env op
        (record { script = env.script; position = 1; ops_read = 1 })
        (start_machine [] exec)
      ≡ err invalid_stack_operation
unfolding step count_op dispatch execute execute_items hash require start_machine conditions_new
    all_true is_push is_disabled is_conditional counts_toward_op_limit opcode_index
hash160_step env exec op e k = ground (arith, e, k)

next_hash160 :
    (rest : Bytes)
    → next_op (reader_new (0xa9 ∷ rest))
      ≡ ok (
        yield (record { opcode = 0xa9; payload = []; end = 1 }),
        record { script = 0xa9 ∷ rest; position = 1; ops_read = 1 },
      )
unfolding next_op reader_new read_op after_read take_op is_push
next_hash160 rest = ground arith

-- An output script that starts with `OP_HASH160` fails on an empty stack.
hash160_fails :
    (rules : Rules) (rest : Bytes) (exec : ExecData)
    → has_tapscript exec ≡ false
    → length rest ≤ 9999
    → eval_script (env_of rules base (0xa9 ∷ rest)) [] exec ≡ err invalid_stack_operation
unfolding eval_script eval_loop loop_round
hash160_fails rules rest exec h l = ground (
  arith,
  h,
  next_hash160 rest,
  hash160_step (env_of rules base (0xa9 ∷ rest)) exec
      (record { opcode = 0xa9; payload = []; end = 1 }) refl refl,
)

p2sh_shape :
    (script : Bytes)
    → is_pay_to_script_hash script ≡ true
    → (rest : Bytes) × (script ≡ 0xa9 ∷ rest) × (length rest ≤ 9999)
unfolding is_pay_to_script_hash
p2sh_shape [] h = absurd (ground (arith, h))
p2sh_shape (a ∷ []) h = absurd (ground (arith, h))
p2sh_shape (a ∷ b ∷ rest) h =
    (b ∷ rest, ap (λ (x : ℕ). x ∷ b ∷ rest) (ground (arith, h)), ground (arith, h))

no_tapscript : (exec : ExecData) → IsExec base exec.tapscript_exec → has_tapscript exec ≡ false
no_tapscript exec h = ground (arith, h)

module _ (rules : Rules) (rs : RulesSafe rules) (witness : List Bytes)
    (hw : All IsWitnessItem witness) (lw : length witness ≤ 2 ^ 32) where
  -- What a legacy script leaves.
  abbrev Legacy : Stack × ExecData → Type 0
  Legacy p = IsStack p.0 × (length p.0 ≤ 1000) × IsExec base p.1.tapscript_exec

  Legacy-Safe :
      (script : Bytes) (s : Stack) (exec : ExecData)
      → IsBytes script
      → length script < 2 ^ 32
      → IsStack s
      → length s ≤ 1000
      → IsExec base exec.tapscript_exec
      → Safe Legacy (eval_script (env_of rules base script) s exec)
  Legacy-Safe script s exec hb l hs ls he =
      eval_script-within 1000 (env_of rules base script) s exec (omega arith) (omega arith)
        rs.checker_ok rs.hashes_ok hb l (λ e. cc) hs ls he

  native-Safe :
      (script_sig script : Bytes) (o : Option (ℕ × Bytes))
      → IsBytes script
      → IsProgram script o
      → NoPanic (verify_native rules script_sig witness o)
  native-Safe script_sig script none hb hp = tt
  native-Safe script_sig script (some (version, program)) hb hp =
      let (b, lo, hi) = program_bytes script version program hb hp in
      Safe-then (λ _. Unit) (fail_if (not (length script_sig == 0)) witness_malleated) _
        (NoPanic-of _ _ (fail_if-Safe _ _))
        λ _.
          Safe-then (λ _. Unit) (verify_witness_program rules witness version program false) _
            (program-Safe rules rs witness version program false hw lw b lo hi) λ _. tt

  wrapped-Safe :
      (script_sig script : Bytes) (o : Option (ℕ × Bytes))
      → IsItem script
      → IsProgram script o
      → NoPanic (verify_wrapped rules script_sig script witness o)
  wrapped-Safe script_sig script none hb hp = tt
  wrapped-Safe script_sig script (some (version, program)) hb hp =
      let (b, lo, hi) = program_bytes script version program hb.item_bytes hp in
      Safe-then (λ _. Unit) (push_encoding script) _
        (push_encoding-Safe script (omega (arith, hb.item_length)))
        λ expected.
          Safe-then (λ _. Unit)
            (fail_if (not (bytes_eq script_sig expected)) witness_malleated_p2sh) _
            (NoPanic-of _ _ (fail_if-Safe _ _))
            λ _.
              Safe-then (λ _. Unit) (verify_witness_program rules witness version program true) _
                (program-Safe rules rs witness version program true hw lw b lo hi) λ _. tt

  redeem-Safe :
      (script_sig script : Bytes) (s : Stack)
      → IsItem script
      → IsStack s
      → length s ≤ 1000
      → NoPanic (verify_redeem_script rules script_sig script s witness)
  unfolding verify_redeem_script
  redeem-Safe script_sig script s hi hs ls =
      Safe-bind Legacy (λ _. Unit) (eval_script (env_of rules base script) s exec_legacy) _
        (Legacy-Safe script s exec_legacy hi.item_bytes (omega (arith, hi.item_length)) hs ls
          (unfold exec_legacy in refl))
        λ p hp.
          Safe-then (λ _. Unit) (ends_true p.0) _ (ends_true-Safe p.0 hp.0)
            λ _.
              Safe-if (λ _. Unit) (not (contains rules.flags flag_witness)) (ok false) _ (λ _. tt)
                λ _.
                  Safe-bind (IsProgram script) (λ _. Unit) (witness_program script) _
                    (witness_program-Safe script) λ o ho. wrapped-Safe script_sig script o hi ho

  p2sh-Safe :
      (script_sig : Bytes) (s : Stack)
      → IsBytes script_sig
      → length script_sig < 2 ^ 32
      → IsStack s
      → length s ≤ 1000
      → 0 < length s
      → NoPanic (verify_p2sh rules script_sig s witness)
  unfolding verify_p2sh pop
  p2sh-Safe script_sig [] hb l hs ls ne = absurd (omega arith)
  p2sh-Safe script_sig (redeem ∷ s) hb l hs ls ne =
      Safe-then (λ _. Unit) (is_push_only script_sig) _ (scans-NoPanic script_sig hb l).0
        λ pushes.
          Safe-then (λ _. Unit) (fail_if (not pushes) sig_pushonly) _
            (NoPanic-of _ _ (fail_if-Safe _ _))
            λ _. redeem-Safe script_sig redeem s hs.0 hs.1 (omega arith)

  module _ (script_sig script_pubkey : Bytes) (hb : IsBytes script_sig)
      (l : length script_sig < 2 ^ 32) (hp : IsBytes script_pubkey)
      (lp : length script_pubkey < 2 ^ 32) where
    programs-Safe :
        (s : Stack)
        → IsStack s
        → length s ≤ 1000
        → (is_pay_to_script_hash script_pubkey ≡ true → 0 < length s)
        → NoPanic (verify_programs rules script_sig script_pubkey s witness)
    unfolding verify_programs
    programs-Safe s hs ls ne =
        Safe-then (λ _. Unit)
          (if contains rules.flags flag_witness
            then (do
              found ← witness_program script_pubkey
              verify_native rules script_sig witness found)
            else ok false)
          _
          (Safe-if (λ _. Unit) (contains rules.flags flag_witness) _ (ok false)
            (λ _.
              Safe-bind (IsProgram script_pubkey) (λ _. Unit) (witness_program script_pubkey) _
                (witness_program-Safe script_pubkey)
                λ o ho. native-Safe script_sig script_pubkey o hp ho)
            λ _. tt)
          λ native.
            Safe-if (λ _. Unit)
              (contains rules.flags flag_p2sh && is_pay_to_script_hash script_pubkey) _ (ok native)
              (λ e. p2sh-Safe script_sig s hb l hs ls (ne (ground (arith, e)))) λ _. tt

    -- The output script's run, and a P2SH output's redeem script before it.
    output-Safe :
        (s : Stack) (exec : ExecData)
        → IsStack s
        → length s ≤ 1000
        → IsExec base exec.tapscript_exec
        → Safe
            (λ p. Legacy p × (is_pay_to_script_hash script_pubkey ≡ true → 0 < length s))
            (eval_script (env_of rules base script_pubkey) s exec)
    output-Safe (item ∷ s) exec hs ls he =
        Safe-mono Legacy _ (eval_script (env_of rules base script_pubkey) (item ∷ s) exec)
          (λ p h. (h, λ _. omega arith)) (Legacy-Safe script_pubkey (item ∷ s) exec hp lp hs ls he)
    output-Safe [] exec hs ls he = elim (Bool-cases (is_pay_to_script_hash script_pubkey)) [
      | inl e ↦
          let (rest, shape, small) = p2sh_shape script_pubkey e in
          subst
            (Safe (λ p.
              Legacy p × (is_pay_to_script_hash script_pubkey ≡ true → 0 < length {A = Bytes} [])))
            (sym (
              ap (λ (t : Bytes). eval_script (env_of rules base t) [] exec) shape
              ∙ hash160_fails rules rest exec (no_tapscript exec he) small))
            tt
      | inr e ↦
          Safe-mono Legacy _ (eval_script (env_of rules base script_pubkey) [] exec)
            (λ p h. (h, λ t. absurd (ground (arith, e, t))))
            (Legacy-Safe script_pubkey [] exec hp lp hs ls he)
    ]

-- `verify_script` does not panic, and so accepts or returns an error, when the flags respect their
-- order (`WITNESS` with `P2SH`, `TAPROOT` with `WITNESS`), the two scripts are bytes, shorter than
-- 2^32, the witness has 2^32 items at most, each of 10,001 bytes at most, and the checker and the
-- third-party functions answer as the interfaces say.
pub verify_script-NoPanic :
    (rules : Rules) (script_sig script_pubkey : Bytes) (witness : List Bytes)
    → RulesSafe rules
    → IsBytes script_sig
    → length script_sig < 2 ^ 32
    → IsBytes script_pubkey
    → length script_pubkey < 2 ^ 32
    → All IsWitnessItem witness
    → length witness ≤ 2 ^ 32
    → NoPanic (verify_script rules script_sig script_pubkey witness)
unfolding verify_script
verify_script-NoPanic rules script_sig script_pubkey witness rs hb l hp lp hw lw =
    Safe-then (λ _. Unit) (check_flags rules.flags) _
      (unfold check_flags in ground (arith, rs.p2sh_ok, rs.witness_ok))
      λ _.
        Safe-bind (Legacy rules rs witness hw lw) (λ _. Unit)
          (eval_script (env_of rules base script_sig) stack_new exec_legacy) _
          (Legacy-Safe rules rs witness hw lw script_sig [] exec_legacy hb l tt (omega arith)
            (unfold exec_legacy in refl))
          λ p h₁.
            Safe-bind _ (λ _. Unit) (eval_script (env_of rules base script_pubkey) p.0 p.1) _
              (output-Safe rules rs witness hw lw script_sig script_pubkey hb l hp lp p.0 p.1 h₁.0
                h₁.1 h₁.2)
              λ q h₂.
                Safe-then (λ _. Unit) (ends_true q.0) _ (ends_true-Safe q.0 h₂.0.0)
                  λ _.
                    Safe-then (λ _. Unit)
                      (verify_programs rules script_sig script_pubkey p.0 witness) _
                      (programs-Safe rules rs witness hw lw script_sig script_pubkey hb l hp lp p.0
                        h₁.0 h₁.1 h₂.1)
                      λ had. NoPanic-of _ _ (fail_if-Safe _ witness_unexpected)
