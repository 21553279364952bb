-- ===== src/Script/Verify.antt =====
-- crates/consensus/src/script/verify.rs: `verify_script`, the witness programs and taproot.
pub mod Items
pub mod Witness
pub mod Total
pub mod Input
use bitmigo.Prelude.{
  ℕ, Bool, true, false, not, ◌&&◌, ◌||◌, List, [], ◌∷◌, reverse, Option, none, some, ltb, ◌==◌,
  if◌then◌else◌, length, ◌++◌,
}
use bitmigo.Script.Error.{
  Outcome, ok, err, panic, ◌>>=◌, ◌>>◌, check, fail_if, eval_false, push_size, stack_size,
  cleanstack, sig_pushonly, witness_malleated, witness_malleated_p2sh, witness_unexpected,
  witness_program_mismatch, witness_program_witness_empty, witness_program_wrong_length,
}
use bitmigo.Script.Num.{Bytes, cast_to_bool}
use bitmigo.Script.Stack.{Stack, stack_new, from_items, is_empty, pop, top, max_script_element_size}
use bitmigo.Script.Opcode.{op_dup, op_hash160, op_equalverify, op_checksig}
use bitmigo.Script.Flags.{ScriptFlags, contains, flag_p2sh, flag_witness, flag_taproot}
use bitmigo.Script.Reader.{push_encoding}
use bitmigo.Script.Machine.{
  SigVersion, base, witness_v0, tapscript, is_tapscript, is_base, is_annex, TaprootSpend, key_path,
  Checker, Hashes, ExecData, exec_legacy, exec_tapscript, Env, max_stack_size,
}
use bitmigo.Script.StackOps.{bytes_eq}
use bitmigo.Script.Interpreter.{eval_script}
use bitmigo.Script.Programs.{is_pay_to_script_hash, witness_program, is_push_only, has_op_success}
use bitmigo.Script.Taproot.{
  Primitives, parse_control, tapleaf_hash, verify_taproot_commitment, validation_weight,
}

-- What every function here is given: the flags, the checker, and the third-party functions.
pub record Rules : Type 0 where
  pub flags : ScriptFlags
  pub checker : Checker
  pub hashes : Hashes
  pub primitives : Primitives

abbrev pub env_of : Rules → SigVersion → Bytes → Env
env_of rules version script = record {
  script = script;
  flags = rules.flags;
  sig_version = version;
  checker = rules.checker;
  hashes = rules.hashes;
}

abbrev pub witness_v0_keyhash_size : ℕ
witness_v0_keyhash_size = 20

abbrev pub witness_v0_scripthash_size : ℕ
witness_v0_scripthash_size = 32

abbrev pub witness_v1_taproot_size : ℕ
witness_v1_taproot_size = 32

abbrev pub taproot_leaf_tapscript : ℕ
taproot_leaf_tapscript = 0xc0

-- `stack.is_empty() || !cast_to_bool(stack.top(1))`
unfoldable pub ends_true : Stack → Outcome (Unit {0})
ends_true s = do
  fail_if (is_empty s) eval_false
  value ← top 1 s
  fail_if (not (cast_to_bool value)) eval_false

unfoldable pub check_item_sizes : List Bytes → Outcome (Unit {0})
check_item_sizes [] = ok tt
check_item_sizes (item ∷ items) = do
  fail_if (ltb max_script_element_size (length item)) push_size
  check_item_sizes items

-- From the item sizes on.
unfoldable pub run_witness_script :
    Rules → List Bytes → Bytes → SigVersion → ExecData → Outcome (Unit {0})
run_witness_script rules items script version exec = do
  check_item_sizes items
  stack ← from_items items
  (s, _) ← eval_script (env_of rules version script) stack exec
  fail_if (not (length s == 1)) cleanstack
  value ← top 1 s
  fail_if (not (cast_to_bool value)) eval_false

-- What is behind the `OP_SUCCESS` scan of a tapscript.
abbrev pub unless_success : Bool → Outcome (Unit {0}) → Outcome (Unit {0})
unless_success true run = ok tt
unless_success false run = run

unfoldable pub execute_witness_script :
    Rules → List Bytes → Bytes → SigVersion → ExecData → Outcome (Unit {0})
execute_witness_script rules items script version exec = do
  check (not (is_base version))
  if is_tapscript version
      then (do
        success ← has_op_success script
        unless_success success (do
          fail_if (ltb max_stack_size (length items)) stack_size
          run_witness_script rules items script version exec))
      else run_witness_script rules items script version exec

-- The annex taken off, where there is one. The items come last first.
unfoldable pub strip_annex : List Bytes → List Bytes × Option Bytes
strip_annex (last ∷ next ∷ items) =
    if is_annex last then (next ∷ items, some last) else (last ∷ next ∷ items, none)
strip_annex items = (items, none)

-- The script path, with the leaf's items last first.
unfoldable pub verify_script_path :
    Rules → List Bytes → Bytes → Option Bytes → Bytes → Bytes → List Bytes → Outcome (Unit {0})
verify_script_path rules witness output_key annex control_bytes script items = do
  control ← parse_control control_bytes
  leaf_hash ← tapleaf_hash rules.primitives control.leaf_version script
  committed ← verify_taproot_commitment rules.primitives control output_key leaf_hash
  fail_if (not committed) witness_program_mismatch
  if not (control.leaf_version == taproot_leaf_tapscript) then ok tt else do
    weight ← validation_weight rules.primitives witness
    execute_witness_script rules (reverse items) script tapscript (
        exec_tapscript
          (record { leaf_hash = leaf_hash; annex = annex; validation_weight_left = weight }))

-- Key path or script path, on the items without the annex, last first.
unfoldable pub taproot_spend :
    Rules → List Bytes → Bytes → List Bytes × Option Bytes → Outcome (Unit {0})
taproot_spend rules witness output_key ([], annex) = panic
taproot_spend rules witness output_key (signature ∷ [], annex) =
    rules.checker.check_schnorr signature output_key key_path annex
taproot_spend rules witness output_key (control ∷ script ∷ items, annex) =
    verify_script_path rules witness output_key annex control script items

unfoldable pub verify_taproot : Rules → List Bytes → Bytes → Outcome (Unit {0})
verify_taproot rules witness output_key = do
  check (contains rules.flags flag_taproot)
  fail_if (length witness == 0) witness_program_witness_empty
  taproot_spend rules witness output_key (strip_annex (reverse witness))

unfoldable pub p2wpkh_script : Bytes → Outcome Bytes
p2wpkh_script program = do
  check (length program == witness_v0_keyhash_size)
  let script = (op_dup ∷ op_hash160 ∷ 0x14 ∷ []) ++ (program ++ (op_equalverify ∷ op_checksig ∷ []))
  check (length script == 25)
  ok script

-- BIP141 P2WSH, with the items last first.
unfoldable pub verify_script_hash : Rules → List Bytes → Bytes → Outcome (Unit {0})
verify_script_hash rules [] program = err witness_program_witness_empty
verify_script_hash rules (script ∷ items) program = do
  fail_if (not (bytes_eq (rules.hashes.sha256 script) program)) witness_program_mismatch
  execute_witness_script rules (reverse items) script witness_v0 exec_legacy

-- BIP141 P2WPKH.
unfoldable pub verify_key_hash : Rules → List Bytes → Bytes → Outcome (Unit {0})
verify_key_hash rules witness program = do
  fail_if (not (length witness == 2)) witness_program_mismatch
  script ← p2wpkh_script program
  execute_witness_script rules witness script witness_v0 exec_legacy

unfoldable pub verify_witness_program : Rules → List Bytes → ℕ → Bytes → Bool → Outcome (Unit {0})
verify_witness_program rules witness version program is_p2sh = do
  check (not (ltb (length program) 2))
  check (not (ltb 40 (length program)))
  if version == 0
      then (if length program == witness_v0_scripthash_size
          then verify_script_hash rules (reverse witness) program
          else if length program == witness_v0_keyhash_size
          then verify_key_hash rules witness program
          else err witness_program_wrong_length)
      else if version == 1 && (not is_p2sh && length program == witness_v1_taproot_size)
      then (if not (contains rules.flags flag_taproot)
          then ok tt
          else verify_taproot rules witness program)
      else ok tt

-- The witness of a redeem script that is a witness program; whether one was found.
abbrev pub verify_wrapped : Rules → Bytes → Bytes → List Bytes → Option (ℕ × Bytes) → Outcome Bool
verify_wrapped rules script_sig redeem_script witness none = ok false
verify_wrapped rules script_sig redeem_script witness (some (version, program)) = do
  expected ← push_encoding redeem_script
  fail_if (not (bytes_eq script_sig expected)) witness_malleated_p2sh
  verify_witness_program rules witness version program true
  ok true

unfoldable pub verify_redeem_script : Rules → Bytes → Bytes → Stack → List Bytes → Outcome Bool
verify_redeem_script rules script_sig redeem_script stack witness = do
  (s, _) ← eval_script (env_of rules base redeem_script) stack exec_legacy
  ends_true s
  if not (contains rules.flags flag_witness) then ok false else do
    found ← witness_program redeem_script
    verify_wrapped rules script_sig redeem_script witness found

-- The witness of an output that is a witness program; whether one was found.
abbrev pub verify_native : Rules → Bytes → List Bytes → Option (ℕ × Bytes) → Outcome Bool
verify_native rules script_sig witness none = ok false
verify_native rules script_sig witness (some (version, program)) = do
  fail_if (not (length script_sig == 0)) witness_malleated
  verify_witness_program rules witness version program false
  ok true

-- The P2SH half, on the copy of the stack; `had_witness` afterwards.
unfoldable pub verify_p2sh : Rules → Bytes → Stack → List Bytes → Outcome Bool
verify_p2sh rules script_sig stack_copy witness = do
  pushes ← is_push_only script_sig
  fail_if (not pushes) sig_pushonly
  check (not (is_empty stack_copy))
  (redeem_script, stack) ← pop stack_copy
  verify_redeem_script rules script_sig redeem_script stack witness

-- `had_witness` after the output script, and after the redeem script.
unfoldable pub verify_programs : Rules → Bytes → Bytes → Stack → List Bytes → Outcome Bool
verify_programs rules script_sig script_pubkey stack_copy witness = do
  native ←
      (if contains rules.flags flag_witness
        then (do
          found ← witness_program script_pubkey
          verify_native rules script_sig witness found)
        else ok false)
  if contains rules.flags flag_p2sh && is_pay_to_script_hash script_pubkey
      then verify_p2sh rules script_sig stack_copy witness
      else ok native

-- `WITNESS` needs `P2SH`, and `TAPROOT` needs `WITNESS`.
unfoldable pub check_flags : ScriptFlags → Outcome (Unit {0})
check_flags flags = do
  check (not (contains flags flag_witness) || contains flags flag_p2sh)
  check (not (contains flags flag_taproot) || contains flags flag_witness)

-- The execution data is passed from one script to the next; `eval_script` resets its only field
-- that a legacy script changes.
unfoldable pub verify_script : Rules → Bytes → Bytes → List Bytes → Outcome (Unit {0})
verify_script rules script_sig script_pubkey witness = do
  check_flags rules.flags
  (stack_copy, exec) ← eval_script (env_of rules base script_sig) stack_new exec_legacy
  (s, _) ← eval_script (env_of rules base script_pubkey) stack_copy exec
  ends_true s
  had_witness ← verify_programs rules script_sig script_pubkey stack_copy witness
  fail_if (contains rules.flags flag_witness && (not had_witness && not (length witness == 0)))
      witness_unexpected
