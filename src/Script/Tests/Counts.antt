-- ===== src/Script/Tests/Counts.antt =====
-- The properties of the script patterns and of the sigop counts at concrete inputs.
use bitmigo.Prelude.{◌≤◌, refl, [], ◌∷◌, ◌++◌, arith}
use bitmigo.Script.Error.{Returns, Safe, NoPanic}
use bitmigo.Script.Num.{Bytes}
use bitmigo.Script.Flags.{mandatory, union, contains}
use bitmigo.Script.Programs.{witness_program, is_push_only, has_op_success}
use bitmigo.Script.Programs.Safety.{scans-NoPanic}
use bitmigo.Script.Programs.Witness.{IsProgram, witness_program-IsProgram}
use bitmigo.Script.Sigops.{SigOpMode, sigop_count, witness_sigop_count, p2sh_sigop_count}
use bitmigo.Script.Sigops.Bounds.{sigop_count-le, p2sh_sigop_count-le, witness_sigop_count-NoPanic}
use bitmigo.Script.Tests.World.{sample_script, all_bytes-IsBytes, zeros}

-- `2 CHECKMULTISIG CHECKSIG`
abbrev counted_script : Bytes
counted_script = 0x52 ∷ 0xae ∷ 0xac ∷ []

-- Version 0, 20 bytes.
abbrev key_hash_program : Bytes
key_hash_program = 0x00 ∷ 20 ∷ zeros 20

witness_program-IsProgram_example :
    Returns (IsProgram key_hash_program) (witness_program key_hash_program)
witness_program-IsProgram_example = witness_program-IsProgram key_hash_program

scans-NoPanic_example :
    NoPanic (is_push_only sample_script) × NoPanic (has_op_success sample_script)
scans-NoPanic_example =
    scans-NoPanic sample_script (all_bytes-IsBytes sample_script refl) (omega arith)

sigop_count-le_example : Safe (λ n. n ≤ 60) (sigop_count counted_script SigOpMode.accurate)
sigop_count-le_example =
    sigop_count-le counted_script SigOpMode.accurate (all_bytes-IsBytes counted_script refl)
      (omega arith)

-- A P2SH output.
abbrev p2sh_output : Bytes
p2sh_output = 0xa9 ∷ 20 ∷ (zeros 20 ++ (0x87 ∷ []))

-- A push of the counted script.
abbrev pushing_script : Bytes
pushing_script = 3 ∷ counted_script

p2sh_sigop_count-le_example : Safe (λ n. n ≤ 80) (p2sh_sigop_count p2sh_output pushing_script)
p2sh_sigop_count-le_example =
    p2sh_sigop_count-le p2sh_output pushing_script
      (all_bytes-IsBytes pushing_script refl, omega arith)

witness_sigop_count-NoPanic_example :
    NoPanic (witness_sigop_count [] key_hash_program (counted_script ∷ []) mandatory)
unfolding mandatory union contains
witness_sigop_count-NoPanic_example =
    witness_sigop_count-NoPanic [] key_hash_program (counted_script ∷ []) mandatory
      (tt, omega arith) ((all_bytes-IsBytes counted_script refl, omega arith), tt) (λ h. refl)
