-- ===== src/Header/Tests/Uint.antt =====
-- The property of uint.rs at concrete numbers.
use bitmigo.Prelude.{◌+◌, ◌*◌, ◌/◌, ◌^◌, ◌-◌, ◌≤◌, ◌≡◌, ◌↔◌, true, arith}
use bitmigo.Script.Error.{Safe}
use bitmigo.Header.Uint.{U256, u256_le, checked_add, checked_mul_u64, u256_sub, div_u64}
use bitmigo.Header.Uint.Value.{IsUint, value, Fits}
use bitmigo.Header.Uint.Scale.{u256_arithmetic}

-- A carry away from the next limb.
abbrev big : U256
big = record { limb0 = 1; limb1 = 2; limb2 = 3; limb3 = 2 ^ 64 - 1 }

abbrev two : U256
two = record { limb0 = 0; limb1 = 0; limb2 = 0; limb3 = 2 }

big-IsUint : IsUint big
big-IsUint = record {
  limb0_ok = omega arith;
  limb1_ok = omega arith;
  limb2_ok = omega arith;
  limb3_ok = omega arith;
}

two-IsUint : IsUint two
two-IsUint = record {
  limb0_ok = omega arith;
  limb1_ok = omega arith;
  limb2_ok = omega arith;
  limb3_ok = omega arith;
}

u256_arithmetic_example :
    ((u256_le two big ≡ true) ↔ (value two ≤ value big))
    × Fits (checked_add big two) (value big + value two)
    × Fits (checked_mul_u64 big 7) (value big * 7)
    × (value two ≤ value big
        → Safe (λ r. IsUint r × (value r + value two ≡ value big)) (u256_sub big two))
    × Safe (λ q. IsUint q × (value q ≡ value big / 7)) (div_u64 big 7)
u256_arithmetic_example = u256_arithmetic big two 7 big-IsUint two-IsUint (omega arith)
