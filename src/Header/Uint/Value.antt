-- ===== src/Header/Uint/Value.antt =====
-- `U256` computes on the numbers its limbs stand for, uint.rs: order, sum and difference.
use bitmigo.Prelude.{
  ℕ, ◌+◌, ◌*◌, ◌^◌, ◌≤◌, ◌<◌, ◌≡◌, ◌↔◌, Bool, true, false, Option, none, some, arith,
}
use bitmigo.Script.Error.{Safe}
use bitmigo.Header.Uint.{U256, u256_le, bit_of, add_limb, checked_add, sub_limb, u256_sub}

-- Every limb is a `u64`.
pub record IsUint (a : U256) : Type 0 where
  pub limb0_ok : a.limb0 < 2 ^ 64
  pub limb1_ok : a.limb1 < 2 ^ 64
  pub limb2_ok : a.limb2 < 2 ^ 64
  pub limb3_ok : a.limb3 < 2 ^ 64

abbrev pub value : U256 → ℕ
value a = a.limb0 * 2 ^ 192 + a.limb1 * 2 ^ 128 + a.limb2 * 2 ^ 64 + a.limb3

-- A sum of limbs, with the carry in its place.
add_limb-sum :
    (a b : ℕ) (carry : Bool)
    → a < 2 ^ 64
    → b < 2 ^ 64
    → ((add_limb a b carry).0 + 2 ^ 64 * bit_of (add_limb a b carry).1 ≡ a + b + bit_of carry)
      × ((add_limb a b carry).0 < 2 ^ 64)
unfolding add_limb
add_limb-sum a b true h k = ground arith
add_limb-sum a b false h k = ground arith

sub_limb-difference :
    (a b : ℕ) (borrow : Bool)
    → a < 2 ^ 64
    → b < 2 ^ 64
    → ((sub_limb a b borrow).0 + b + bit_of borrow ≡ a + 2 ^ 64 * bit_of (sub_limb a b borrow).1)
      × ((sub_limb a b borrow).0 < 2 ^ 64)
unfolding sub_limb
sub_limb-difference a b true h k = ground arith
sub_limb-difference a b false h k = ground arith

pub u256_le-value : (a b : U256) → IsUint a → IsUint b → (u256_le a b ≡ true) ↔ (value a ≤ value b)
unfolding u256_le
u256_le-value a b h k = ground (arith, h.limb0_ok)

-- The result is the number, or there is none and the number does not fit.
abbrev pub Fits : Option U256 → ℕ → Type 0
Fits (some r) n = IsUint r × (value r ≡ n)
Fits none n = 2 ^ 256 ≤ n

-- `checked_add` is the sum of the two numbers, and `None` exactly when it does not fit 256 bits.
pub checked_add-value :
    (a b : U256) → IsUint a → IsUint b → Fits (checked_add a b) (value a + value b)
unfolding checked_add
checked_add-value a b h k =
    let s3 = add_limb-sum a.limb3 b.limb3 false h.limb3_ok k.limb3_ok in
    let c3 : Bool = (add_limb a.limb3 b.limb3 false).1 in
    let s2 = add_limb-sum a.limb2 b.limb2 c3 h.limb2_ok k.limb2_ok in
    let c2 : Bool = (add_limb a.limb2 b.limb2 c3).1 in
    let s1 = add_limb-sum a.limb1 b.limb1 c2 h.limb1_ok k.limb1_ok in
    let c1 : Bool = (add_limb a.limb1 b.limb1 c2).1 in
    let s0 = add_limb-sum a.limb0 b.limb0 c1 h.limb0_ok k.limb0_ok in ground (arith, s3, s2, s1, s0)

-- `sub` of no larger a number fails no assertion, and is the difference.
pub u256_sub-Safe :
    (a b : U256)
    → IsUint a
    → IsUint b
    → value b ≤ value a
    → Safe (λ r. IsUint r × (value r + value b ≡ value a)) (u256_sub a b)
unfolding u256_sub
u256_sub-Safe a b h k l =
    let s3 = sub_limb-difference a.limb3 b.limb3 false h.limb3_ok k.limb3_ok in
    let c3 : Bool = (sub_limb a.limb3 b.limb3 false).1 in
    let s2 = sub_limb-difference a.limb2 b.limb2 c3 h.limb2_ok k.limb2_ok in
    let c2 : Bool = (sub_limb a.limb2 b.limb2 c3).1 in
    let s1 = sub_limb-difference a.limb1 b.limb1 c2 h.limb1_ok k.limb1_ok in
    let c1 : Bool = (sub_limb a.limb1 b.limb1 c2).1 in
    let s0 = sub_limb-difference a.limb0 b.limb0 c1 h.limb0_ok k.limb0_ok in
    ground (arith, (u256_le-value b a k h).1 l, s3, s2, s1, s0)
