-- ===== src/Script/Signatures.antt =====
-- The signature opcodes of crates/consensus/src/script/interpreter.rs.
pub mod Safety
pub mod Multisig
pub mod Matching
use bitmigo.Prelude.{
  ℕ, zero, suc, ◌+◌, ◌-◌, Bool, true, false, not, ◌&&◌, ◌||◌, List, [], ◌∷◌, Option, none, some,
  leb, ltb, ◌==◌, if◌then◌else◌, length, drop,
}
use bitmigo.Prelude.Int.{ℤ, pos, negsuc, ◌-ℤ◌, ltb_ℤ}
use bitmigo.Script.Error.{
  Outcome, ok, err, panic, ◌>>=◌, ◌>>◌, check, fail_if, bad_opcode, checksigverify,
  checkmultisigverify, tapscript_validation_weight, tapscript_empty_pubkey, tapscript_checkmultisig,
  pubkey_count, op_count, sig_count, sig_nulldummy,
}
use bitmigo.Script.Num.{
  Bytes, ScriptNum, decode, encode, num_add, from_bool, to_clamped_i32, scriptnum_size_max, checked,
  is_negative,
}
use bitmigo.Script.Stack.{Stack, require, push, push_bool, pop, top, expect}
use bitmigo.Script.Opcode
use bitmigo.Script.Flags.{contains, flag_nulldummy}
use bitmigo.Script.Reader.{push_encoding}
use bitmigo.Script.FindDelete.{find_and_delete}
use bitmigo.Script.Der.{check_signature_encoding}
use bitmigo.Script.Machine.{
  SigVersion, base, witness_v0, tapscript, is_tapscript, is_base, TaprootSpend, tapscript_leaf,
  TapscriptExec, ExecData, Env, Machine, max_ops_per_script, max_pubkeys_per_multisig,
  validation_weight_per_sigop_passed,
}

-- The script from after the last executed `OP_CODESEPARATOR`.
unfoldable pub script_code : Env → Machine → Outcome Bytes
script_code env m = do
  check (leb m.codesep_start (length env.script))
  ok (drop m.codesep_start env.script)

-- One signature deleted from the script code.
unfoldable pub delete_signature : Bytes → Bytes → Outcome Bytes
delete_signature code signature = do
  pattern_bytes ← push_encoding signature
  (left, _) ← find_and_delete code pattern_bytes
  ok left

unfoldable pub eval_checksig_pre_tapscript : Env → Machine → Bytes → Bytes → Outcome Bool
eval_checksig_pre_tapscript env m signature pubkey = do
  whole ← script_code env m
  code ← (if is_base env.sig_version then delete_signature whole signature else ok whole)
  check_signature_encoding signature env.flags
  env.checker.check_ecdsa signature pubkey code env.sig_version

-- The budget charged for a non-empty signature.
unfoldable pub charge : Bool → TapscriptExec → Outcome TapscriptExec
charge false exec = ok exec
charge true exec = do
  left ← checked (exec.validation_weight_left -ℤ pos validation_weight_per_sigop_passed)
  fail_if (ltb_ℤ left (pos 0)) tapscript_validation_weight
  ok (record exec { validation_weight_left = left })

unfoldable pub eval_checksig_tapscript : Env → Machine → Bytes → Bytes → Outcome (Bool × Machine)
eval_checksig_tapscript env m signature pubkey = do
  exec ← expect m.exec.tapscript_exec
  let success = not (length signature == 0)
  charged ← charge success exec
  fail_if (length pubkey == 0) tapscript_empty_pubkey
  (if length pubkey == 32 && success
      then env.checker.check_schnorr signature pubkey
          (tapscript_leaf charged.leaf_hash m.exec.codesep_pos) charged.annex
      else ok tt)
  ok (
    success,
    record m { exec = record { codesep_pos = m.exec.codesep_pos; tapscript_exec = some charged } },
  )

unfoldable pub eval_checksig : Env → Machine → Bytes → Bytes → Outcome (Bool × Machine)
eval_checksig env m signature pubkey =
    if is_tapscript env.sig_version
    then eval_checksig_tapscript env m signature pubkey
    else do success ← eval_checksig_pre_tapscript env m signature pubkey; ok (success, m)

unfoldable pub checksig : Env → ℕ → Machine → Outcome Machine
checksig env opcode m = do
  require 2 m.stack
  (pubkey, s₁) ← pop m.stack
  (signature, s₂) ← pop s₁
  (success, m₁) ← eval_checksig env (record m { stack = s₂ }) signature pubkey
  s₃ ← push_bool success m₁.stack
  if opcode == Opcode.op_checksigverify
      then (do
        fail_if (not success) checksigverify
        (_, s₄) ← pop s₃
        ok (record m₁ { stack = s₄ }))
      else ok (record m₁ { stack = s₃ })

unfoldable pub checksigadd : Env → Machine → Outcome Machine
checksigadd env m = do
  fail_if (not (is_tapscript env.sig_version)) bad_opcode
  require 3 m.stack
  (pubkey, s₁) ← pop m.stack
  operand ← top 1 s₁
  n ← decode operand scriptnum_size_max
  (_, s₂) ← pop s₁
  (signature, s₃) ← pop s₂
  (success, m₁) ← eval_checksig env (record m { stack = s₃ }) signature pubkey
  sum ← num_add n (from_bool success)
  item ← encode sum
  s₄ ← push item m₁.stack
  ok (record m₁ { stack = s₄ })

-- `usize::try_from(count).expect(..)`
unfoldable pub count_from : ℤ → Outcome ℕ
count_from (pos n) = ok n
count_from (negsuc n) = panic

-- `for k in 0..sig_count`, with `sig_count - k` rounds left.
unfoldable pub delete_signatures : ℕ → ℕ → ℕ → Stack → Bytes → Outcome Bytes
delete_signatures zero isig k s code = ok code
delete_signatures (suc left) isig k s code = do
  signature ← top (isig + k) s
  code' ← delete_signature code signature
  delete_signatures left isig (k + 1) s code'

unfoldable pub multisig_script_code : Env → Machine → ℕ → ℕ → Outcome Bytes
multisig_script_code env m isig sigs = do
  code ← script_code env m
  if is_base env.sig_version then delete_signatures sigs isig 0 m.stack code else ok code

-- The matching loop. Its assertion `iterations <= MAX_PUBKEYS_PER_MULTISIG` is the fuel, and
-- `keys_left -= 1` is checked for underflow.
unfoldable pub checkmultisig_verify : ℕ → Env → Stack → ℕ → ℕ → ℕ → ℕ → Bytes → Outcome Bool
checkmultisig_verify fuel env s ikey isig keys_left zero code = ok true
checkmultisig_verify zero env s ikey isig keys_left (suc sigs) code = panic
checkmultisig_verify (suc fuel) env s ikey isig keys_left (suc sigs) code = do
  signature ← top isig s
  pubkey ← top ikey s
  check_signature_encoding signature env.flags
  matched ← env.checker.check_ecdsa signature pubkey code env.sig_version
  check (ltb 0 keys_left)
  elim matched [
    | true ↦ elim (ltb (keys_left - 1) sigs) [
      | true ↦ ok false
      | false ↦ checkmultisig_verify fuel env s (ikey + 1) (isig + 1) (keys_left - 1) sigs code
    ]
    | false ↦ elim (ltb (keys_left - 1) (suc sigs)) [
      | true ↦ ok false
      | false ↦ checkmultisig_verify fuel env s (ikey + 1) isig (keys_left - 1) (suc sigs) code
    ]
  ]

-- `for _ in 1..i { self.stack.pop(); }`, with the rounds left.
unfoldable pub pop_many : ℕ → Stack → Outcome Stack
pop_many zero s = ok s
pop_many (suc n) s = do (_, s') ← pop s; pop_many n s'

-- From the clean-up of the arguments on.
unfoldable pub finish_multisig : Env → ℕ → Machine → ℕ → Bool → Outcome Machine
finish_multisig env opcode m i success = do
  s₁ ← pop_many (i - 1) m.stack
  require 1 s₁
  dummy ← top 1 s₁
  fail_if (contains env.flags flag_nulldummy && not (length dummy == 0)) sig_nulldummy
  (_, s₂) ← pop s₁
  s₃ ← push_bool success s₂
  if opcode == Opcode.op_checkmultisigverify
      then (do
        fail_if (not success) checkmultisigverify
        (_, s₄) ← pop s₃
        ok (record m { stack = s₄ }))
      else ok (record m { stack = s₃ })

-- The key count: in 0..=20, and charged to the opcode limit.
unfoldable pub key_count_of : Machine → Outcome (ℕ × Machine)
key_count_of m = do
  require 1 m.stack
  operand ← top 1 m.stack
  n ← decode operand scriptnum_size_max
  let count = to_clamped_i32 n
  fail_if (is_negative count || ltb_ℤ (pos max_pubkeys_per_multisig) count) pubkey_count
  keys ← count_from count
  fail_if (ltb max_ops_per_script (m.op_count + keys)) op_count
  ok (keys, record m { op_count = m.op_count + keys })

-- The signature count, at depth `2 + keys`: at most the key count.
unfoldable pub sig_count_of : ℕ → Machine → Outcome ℕ
sig_count_of keys m = do
  require (2 + keys) m.stack
  operand ← top (2 + keys) m.stack
  n ← decode operand scriptnum_size_max
  let count = to_clamped_i32 n
  fail_if (is_negative count || ltb_ℤ (pos keys) count) sig_count
  count_from count

unfoldable pub checkmultisig : Env → ℕ → Machine → Outcome Machine
checkmultisig env opcode m = do
  fail_if (is_tapscript env.sig_version) tapscript_checkmultisig
  (keys, m₁) ← key_count_of m
  sigs ← sig_count_of keys m₁
  let isig = 3 + keys
  let i = isig + sigs
  require i m₁.stack
  code ← multisig_script_code env m₁ isig sigs
  success ← checkmultisig_verify max_pubkeys_per_multisig env m₁.stack 2 isig keys sigs code
  finish_multisig env opcode m₁ i success
