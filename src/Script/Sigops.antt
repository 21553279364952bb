-- ===== src/Script/Sigops.antt =====
-- crates/consensus/src/script/sigops.rs: counting signature operations without running a script.
pub mod Bounds
use bitmigo.Prelude.{
  ℕ, zero, suc, ◌+◌, ◌*◌, ◌^◌, Bool, true, false, not, ◌&&◌, ◌||◌, List, [], ◌∷◌, Option, none,
  some, ltb, leb, ◌==◌, if◌then◌else◌, length,
}
use bitmigo.Prelude.Int.{ℤ, pos, negsuc}
use bitmigo.Script.Error.{Outcome, ok, panic, ◌>>=◌, ◌>>◌, check}
use bitmigo.Script.Num.{Bytes}
use bitmigo.Script.Opcode
use bitmigo.Script.Opcode.{between, small_integer}
use bitmigo.Script.Flags.{ScriptFlags, contains, flag_p2sh, flag_witness}
use bitmigo.Script.Reader.{Reader, reader_new, Next, finished, yield, failed, next_op}
use bitmigo.Script.Machine.{max_pubkeys_per_multisig}
use bitmigo.Script.Programs.{is_pay_to_script_hash, witness_program}

pub data SigOpMode : Type 0 where
  inaccurate accurate : SigOpMode

abbrev pub is_accurate : SigOpMode → Bool
is_accurate inaccurate = false
is_accurate accurate = true

-- `u32::try_from(..).expect(..)`, and the two assertions on the key count.
unfoldable pub key_count : ℤ → Outcome ℕ
key_count (pos keys) = do check (leb 1 keys); check (leb keys max_pubkeys_per_multisig); ok keys
key_count (negsuc n) = panic

-- What one opcode adds, behind the opcode before it.
unfoldable pub sigops_of : SigOpMode → ℕ → ℕ → Outcome ℕ
sigops_of mode previous opcode =
    if opcode == Opcode.op_checksig || opcode == Opcode.op_checksigverify
    then ok 1
    else if opcode == Opcode.op_checkmultisig || opcode == Opcode.op_checkmultisigverify
    then (if is_accurate mode && between Opcode.op_1 Opcode.op_16 previous
        then (do keys ← small_integer previous; key_count keys)
        else ok max_pubkeys_per_multisig)
    else ok 0

-- The body of the loop behind `next_op`; `count +=` is checked for overflow.
unfoldable pub sigop_round :
    (Reader → ℕ → ℕ → Outcome ℕ) → SigOpMode → ℕ → ℕ → Next → Reader → Outcome ℕ
sigop_round next_round mode count previous finished r = ok count
sigop_round next_round mode count previous (failed e) r = ok count
sigop_round next_round mode count previous (yield op) r = do
  added ← sigops_of mode previous op.opcode
  check (ltb (count + added) (2 ^ 32))
  next_round r (count + added) op.opcode

-- `for _ in 0..=script.len()`, with the rounds left.
unfoldable pub sigop_loop : ℕ → SigOpMode → Reader → ℕ → ℕ → Outcome ℕ
sigop_loop zero mode r count previous = ok count
sigop_loop (suc left) mode r count previous = do
  (next, r') ← next_op r
  sigop_round (λ r₁ c p. sigop_loop left mode r₁ c p) mode count previous next r'

unfoldable pub sigop_count : Bytes → SigOpMode → Outcome ℕ
sigop_count script mode = do
  count ← sigop_loop (suc (length script)) mode (reader_new script) 0 Opcode.op_invalidopcode
  check (leb count (20 * length script))
  ok count

-- The body of the loop of `last_push`.
unfoldable pub last_push_round :
    (Reader → Bytes → Outcome (Option Bytes)) → Bytes → Next → Reader → Outcome (Option Bytes)
last_push_round next_round last finished r = ok (some last)
last_push_round next_round last (failed e) r = ok none
last_push_round next_round last (yield op) r =
    if ltb Opcode.op_16 op.opcode then ok none else next_round r op.payload

unfoldable pub last_push_loop : ℕ → Reader → Bytes → Outcome (Option Bytes)
last_push_loop zero r last = ok (some last)
last_push_loop (suc left) r last = do
  (next, r') ← next_op r
  last_push_round (λ r₁ l. last_push_loop left r₁ l) last next r'

unfoldable pub last_push : Bytes → Outcome (Option Bytes)
last_push script_sig = last_push_loop (suc (length script_sig)) (reader_new script_sig) []

abbrev pub redeem_sigops : Option Bytes → Outcome ℕ
redeem_sigops none = ok 0
redeem_sigops (some redeem_script) = sigop_count redeem_script accurate

unfoldable pub p2sh_sigop_count : Bytes → Bytes → Outcome ℕ
p2sh_sigop_count script_pubkey script_sig =
    if not (is_pay_to_script_hash script_pubkey)
    then ok 0
    else do redeem ← last_push script_sig; redeem_sigops redeem

-- `witness.last()`
abbrev pub last_item : List Bytes → Option Bytes
last_item [] = none
last_item (item ∷ []) = some item
last_item (item ∷ next ∷ items) = last_item (next ∷ items)

unfoldable pub witness_program_sigop_count : ℕ → Bytes → List Bytes → Outcome ℕ
witness_program_sigop_count version program witness = do
  check (leb 2 (length program))
  check (leb (length program) 40)
  if not (version == 0)
      then ok 0
      else if length program == 20
      then ok 1
      else if length program == 32
      then redeem_sigops (last_item witness)
      else ok 0

abbrev pub program_sigops : Option (ℕ × Bytes) → List Bytes → Outcome ℕ → Outcome ℕ
program_sigops none witness otherwise = otherwise
program_sigops (some (version, program)) witness otherwise =
    witness_program_sigop_count version program witness

-- The program of the redeem script, if there is one.
abbrev pub redeem_program : Option Bytes → Outcome (Option (ℕ × Bytes))
redeem_program none = ok none
redeem_program (some redeem_script) = witness_program redeem_script

unfoldable pub witness_sigop_count : Bytes → Bytes → List Bytes → ScriptFlags → Outcome ℕ
witness_sigop_count script_sig script_pubkey witness flags =
    if not (contains flags flag_witness) then ok 0 else do
      check (contains flags flag_p2sh)
      native ← witness_program script_pubkey
      program_sigops native witness (
          if is_pay_to_script_hash script_pubkey
          then (do
            redeem ← last_push script_sig
            wrapped ← redeem_program redeem
            program_sigops wrapped witness (ok 0))
          else ok 0)
