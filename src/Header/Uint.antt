-- ===== src/Header/Uint.antt =====
-- crates/consensus/src/header/uint.rs: `U256`, four 64-bit limbs, the most significant first.
pub mod Value
pub mod Scale
use bitmigo.Prelude.{
  ℕ, ◌+◌, ◌-◌, ◌*◌, ◌/◌, ◌%◌, ◌^◌, Bool, true, false, not, ◌&&◌, ◌||◌, Option, none, some, ltb, leb,
  ◌==◌, if◌then◌else◌,
}
use bitmigo.Script.Error.{Outcome, ok, ◌>>=◌, ◌>>◌, check}

pub record U256 : Type 0 where
  pub limb0 : ℕ
  pub limb1 : ℕ
  pub limb2 : ℕ
  pub limb3 : ℕ

abbrev pub u256_zero : U256
u256_zero = record { limb0 = 0; limb1 = 0; limb2 = 0; limb3 = 0 }

abbrev pub u256_one : U256
u256_one = record { limb0 = 0; limb1 = 0; limb2 = 0; limb3 = 1 }

abbrev pub from_u64 : ℕ → U256
from_u64 value = record { limb0 = 0; limb1 = 0; limb2 = 0; limb3 = value }

unfoldable pub u256_is_zero : U256 → Bool
u256_is_zero a = a.limb0 == 0 && (a.limb1 == 0 && (a.limb2 == 0 && a.limb3 == 0))

-- The derived order: limb by limb.
unfoldable pub u256_le : U256 → U256 → Bool
u256_le a b =
    if not (a.limb0 == b.limb0)
    then ltb a.limb0 b.limb0
    else if not (a.limb1 == b.limb1)
    then ltb a.limb1 b.limb1
    else if not (a.limb2 == b.limb2)
    then ltb a.limb2 b.limb2
    else leb a.limb3 b.limb3

-- `!limb`
abbrev pub not_limb : ℕ → ℕ
not_limb limb = 2 ^ 64 - 1 - limb

unfoldable pub u256_not : U256 → U256
u256_not a = record {
  limb0 = not_limb a.limb0;
  limb1 = not_limb a.limb1;
  limb2 = not_limb a.limb2;
  limb3 = not_limb a.limb3;
}

abbrev pub bit_of : Bool → ℕ
bit_of true = 1
bit_of false = 0

-- One limb of `checked_add`: two `overflowing_add`s.
unfoldable pub add_limb : ℕ → ℕ → Bool → ℕ × Bool
add_limb a b carry =
    let sum = (a + b) % 2 ^ 64 in
    let total = sum + bit_of carry in (total % 2 ^ 64, leb (2 ^ 64) (a + b) || leb (2 ^ 64) total)

unfoldable pub checked_add : U256 → U256 → Option U256
checked_add a b =
    let (r3, c3) = add_limb a.limb3 b.limb3 false in
    let (r2, c2) = add_limb a.limb2 b.limb2 c3 in
    let (r1, c1) = add_limb a.limb1 b.limb1 c2 in
    let (r0, c0) = add_limb a.limb0 b.limb0 c1 in
    if c0 then none else some (record { limb0 = r0; limb1 = r1; limb2 = r2; limb3 = r3 })

-- `a.overflowing_sub(b)`
abbrev pub wrapping_sub : ℕ → ℕ → ℕ
wrapping_sub a b = (a + 2 ^ 64 - b) % 2 ^ 64

-- One limb of `sub`: two `overflowing_sub`s.
unfoldable pub sub_limb : ℕ → ℕ → Bool → ℕ × Bool
sub_limb a b borrow =
    let difference = wrapping_sub a b in
    (wrapping_sub difference (bit_of borrow), ltb a b || ltb difference (bit_of borrow))

unfoldable pub u256_sub : U256 → U256 → Outcome U256
u256_sub a b = do
  check (u256_le b a)
  let (r3, b3) = sub_limb a.limb3 b.limb3 false
  let (r2, b2) = sub_limb a.limb2 b.limb2 b3
  let (r1, b1) = sub_limb a.limb1 b.limb1 b2
  let (r0, b0) = sub_limb a.limb0 b.limb0 b1
  check (not b0)
  ok (record { limb0 = r0; limb1 = r1; limb2 = r2; limb3 = r3 })

-- One limb of `checked_mul_u64`: the limb, and the carry.
unfoldable pub mul_limb : ℕ → ℕ → ℕ → ℕ × ℕ
mul_limb a factor carry = let product = a * factor + carry in (product % 2 ^ 64, product / 2 ^ 64)

unfoldable pub checked_mul_u64 : U256 → ℕ → Option U256
checked_mul_u64 a factor =
    let (r3, c3) = mul_limb a.limb3 factor 0 in
    let (r2, c2) = mul_limb a.limb2 factor c3 in
    let (r1, c1) = mul_limb a.limb1 factor c2 in
    let (r0, c0) = mul_limb a.limb0 factor c1 in
    if not (c0 == 0) then none else some (record { limb0 = r0; limb1 = r1; limb2 = r2; limb3 = r3 })

-- One limb of `div_u64`, `u64::try_from` included: the quotient's limb, and the remainder.
unfoldable pub div_limb : ℕ → ℕ → ℕ → Outcome (ℕ × ℕ)
div_limb a divisor remainder = do
  let current = remainder * 2 ^ 64 + a
  check (ltb (current / divisor) (2 ^ 64))
  ok (current / divisor, current % divisor)

unfoldable pub div_u64 : U256 → ℕ → Outcome U256
div_u64 a divisor = do
  check (ltb 0 divisor)
  (q0, m0) ← div_limb a.limb0 divisor 0
  (q1, m1) ← div_limb a.limb1 divisor m0
  (q2, m2) ← div_limb a.limb2 divisor m1
  (q3, m3) ← div_limb a.limb3 divisor m2
  ok (record { limb0 = q0; limb1 = q1; limb2 = q2; limb3 = q3 })
