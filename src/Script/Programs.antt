-- ===== src/Script/Programs.antt =====
-- crates/consensus/src/script/verify.rs: the script patterns that `verify_script` looks for.
pub mod Safety
pub mod Witness
use bitmigo.Prelude.{
  ℕ, zero, suc, ◌+◌, ◌-◌, Bool, true, false, not, ◌&&◌, ◌||◌, [], ◌∷◌, Option, none, some, ltb, leb,
  ◌==◌, if◌then◌else◌, length,
}
use bitmigo.Script.Error.{ScriptError, Outcome, ok, err, panic, ◌>>=◌, ◌>>◌, check}
use bitmigo.Script.Num.{Bytes, last_byte}
use bitmigo.Script.Opcode.{op_0, op_1, op_16, op_hash160, op_equal, between, is_success}
use bitmigo.Script.Reader.{Reader, reader_new, Next, finished, yield, failed, next_op}

unfoldable pub is_pay_to_script_hash : Bytes → Bool
unfolding last_byte
is_pay_to_script_hash (a ∷ b ∷ rest) =
    length rest == 21 && (a == op_hash160 && (b == 0x14 && last_byte rest == op_equal))
is_pay_to_script_hash other = false

-- The version of a version opcode.
unfoldable pub version_of : ℕ → Option ℕ
version_of byte =
    if byte == op_0
    then some 0
    else if between op_1 op_16 byte
    then some (byte - op_1 + 1)
    else none

-- What follows the two bytes, behind the check of the push's length.
abbrev pub program_of : Option ℕ → ℕ → Bytes → Outcome (Option (ℕ × Bytes))
program_of none push_len program = ok none
program_of (some version) push_len program =
    if not (push_len == length program)
    then ok none
    else do check (length program == push_len); ok (some (version, program))

unfoldable pub witness_program : Bytes → Outcome (Option (ℕ × Bytes))
unfolding version_of
witness_program (version_byte ∷ push_len ∷ program) =
    if ltb (length program + 2) 4 || ltb 42 (length program + 2)
    then ok none
    else program_of (version_of version_byte) push_len program
witness_program other = ok none

-- `while let Some(step) = reader.next_op()` in a function that answers a question: each opcode
-- answers it or passes it on, a truncated push and the end of the script answer it. Every round
-- reads a byte at least, so one round more than the length of the script is fuel enough.
abbrev pub scan_round :
    (Reader → Outcome Bool) → (ℕ → Option Bool) → Outcome Bool → Bool → Next → Reader → Outcome Bool
scan_round next_round answer at_failure at_end finished r = ok at_end
scan_round next_round answer at_failure at_end (failed e) r = at_failure
scan_round next_round answer at_failure at_end (yield op) r = elim (answer op.opcode) [
  | some b ↦ ok b
  | none ↦ next_round r
]

unfoldable pub scan : ℕ → (ℕ → Option Bool) → Outcome Bool → Bool → Reader → Outcome Bool
scan zero answer at_failure at_end r = panic
scan (suc fuel) answer at_failure at_end r = do
  (next, r') ← next_op r
  scan_round (λ r₁. scan fuel answer at_failure at_end r₁) answer at_failure at_end next r'

unfoldable pub is_push_only : Bytes → Outcome Bool
is_push_only script =
    scan (suc (length script)) (λ opcode. if ltb op_16 opcode then some false else none) (ok false)
      true (reader_new script)

-- `step?` passes the reader's only error on.
unfoldable pub has_op_success : Bytes → Outcome Bool
has_op_success script =
    scan (suc (length script)) (λ opcode. if is_success opcode then some true else none)
      (err ScriptError.bad_opcode) false (reader_new script)
