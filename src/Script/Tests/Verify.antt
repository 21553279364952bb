-- ===== src/Script/Tests/Verify.antt =====
-- The property of verify.rs at a concrete input.
use bitmigo.Prelude.{refl, [], ◌∷◌, arith}
use bitmigo.Script.Error.{NoPanic}
use bitmigo.Script.Num.{Bytes}
use bitmigo.Script.Flags.{contains, mandatory}
use bitmigo.Script.Verify.{Rules, verify_script}
use bitmigo.Script.Verify.Items.{RulesSafe}
use bitmigo.Script.Verify.Total.{verify_script-NoPanic}
use bitmigo.Script.Tests.World.{lenient, lenient-safe, zero_hashes, zero_hashes-safe, plain}

abbrev sample_rules : Rules
sample_rules = record {
  flags = mandatory;
  checker = lenient;
  hashes = zero_hashes;
  primitives = plain;
}

sample_rules-safe : RulesSafe sample_rules
unfolding contains mandatory
sample_rules-safe = record {
  checker_ok = lenient-safe;
  hashes_ok = zero_hashes-safe;
  var_int_ok = λ n. (omega arith, omega arith);
  p2sh_ok = λ e. refl;
  witness_ok = λ e. refl;
}

-- `HASH160 <20 zeros> EQUAL`
abbrev p2sh_output : Bytes
p2sh_output =
    0xa9 ∷ 0x14 ∷ 0 ∷ 0 ∷ 0 ∷ 0 ∷ 0 ∷ 0 ∷ 0 ∷ 0 ∷ 0 ∷ 0 ∷ 0 ∷ 0 ∷ 0 ∷ 0 ∷ 0 ∷ 0 ∷ 0 ∷ 0 ∷ 0 ∷ 0
    ∷ 0x87 ∷ []

-- A push of the redeem script `1`.
abbrev push_of_one : Bytes
push_of_one = 0x01 ∷ 0x51 ∷ []

verify_script-NoPanic_example : NoPanic (verify_script sample_rules push_of_one p2sh_output [])
verify_script-NoPanic_example =
    verify_script-NoPanic sample_rules push_of_one p2sh_output [] sample_rules-safe
      (omega arith, (omega arith, tt)) (omega arith) (ground arith) (omega arith) tt (omega arith)
