-- ===== src/Header/Uint/Scale.antt =====
-- `U256` times and over a `u64`, uint.rs: limb by limb is the product and the quotient.
use bitmigo.Prelude.{ℕ, ◌+◌, ◌*◌, ◌/◌, ◌^◌, ◌≤◌, ◌<◌, ◌≡◌, ◌↔◌, sym, true, ltb, arith}
use native.Mathlib.Nat.{div-lt_iff_lt-mul, div-add-mod', mod-lt, div-eq_of_lt-le}
use bitmigo.Script.Error.{Safe, Safe-bind, Safe-then, check}
use bitmigo.Header.Uint.{
  U256, u256_le, checked_add, u256_sub, mul_limb, checked_mul_u64, div_limb, div_u64,
}
use bitmigo.Header.Uint.Value.{IsUint, value, Fits, u256_le-value, checked_add-value, u256_sub-Safe}

mul_limb-product :
    (a factor carry : ℕ)
    → ((mul_limb a factor carry).0 + 2 ^ 64 * (mul_limb a factor carry).1 ≡ a * factor + carry)
      × ((mul_limb a factor carry).0 < 2 ^ 64)
unfolding mul_limb
mul_limb-product a factor carry = omega arith

value-factor :
    (a : U256) (f : ℕ)
    → value a * f
      ≡ a.limb0 * f * 2 ^ 192 + a.limb1 * f * 2 ^ 128 + a.limb2 * f * 2 ^ 64 + a.limb3 * f
value-factor a f = omega arith

-- `checked_mul_u64` is the product, and `None` exactly when it does not fit 256 bits.
pub checked_mul_u64-value :
    (a : U256) (factor : ℕ) → IsUint a → Fits (checked_mul_u64 a factor) (value a * factor)
unfolding checked_mul_u64
checked_mul_u64-value a factor h =
    let p3 = mul_limb-product a.limb3 factor 0 in
    let c3 : ℕ = (mul_limb a.limb3 factor 0).1 in
    let p2 = mul_limb-product a.limb2 factor c3 in
    let c2 : ℕ = (mul_limb a.limb2 factor c3).1 in
    let p1 = mul_limb-product a.limb1 factor c2 in
    let c1 : ℕ = (mul_limb a.limb1 factor c2).1 in
    let p0 = mul_limb-product a.limb0 factor c1 in
    ground (arith, value-factor a factor, p3, p2, p1, p0)

abbrev Divides : ℕ → ℕ → ℕ → ℕ × ℕ → Type 0
Divides a divisor remainder p =
    (p.0 * divisor + p.1 ≡ remainder * 2 ^ 64 + a) × (p.1 < divisor) × (p.0 < 2 ^ 64)

div_limb-Safe :
    (a divisor remainder : ℕ)
    → a < 2 ^ 64
    → remainder < divisor
    → Safe (Divides a divisor remainder) (div_limb a divisor remainder)
unfolding div_limb
div_limb-Safe a divisor remainder h k =
    let n : ℕ = remainder * 2 ^ 64 + a in
    let small : n / divisor < 2 ^ 64 =
      (div-lt_iff_lt-mul (omega (arith, k))).1 (omega (arith, h, k)) in
    ground (arith, small, div-add-mod' n divisor, mod-lt n {m = divisor} (omega (arith, k)))

quotient_unique : (n d q r : ℕ) → q * d + r ≡ n → r < d → n / d ≡ q
quotient_unique n d q r h k = div-eq_of_lt-le d (omega (arith, h)) (omega (arith, h, k))

-- `div_u64` by a positive number fails no assertion, and is the quotient.
pub div_u64-Safe :
    (a : U256) (divisor : ℕ)
    → IsUint a
    → 0 < divisor
    → Safe (λ q. IsUint q × (value q ≡ value a / divisor)) (div_u64 a divisor)
unfolding div_u64
div_u64-Safe a divisor h k =
    let done = λ (q : U256). IsUint q × (value q ≡ value a / divisor) in
    Safe-then done (check (ltb 0 divisor)) _ (ground arith) λ _.
      Safe-bind (Divides a.limb0 divisor 0) done (div_limb a.limb0 divisor 0) _
        (div_limb-Safe a.limb0 divisor 0 h.limb0_ok k)
        λ p0 h0.
          Safe-bind (Divides a.limb1 divisor p0.1) done (div_limb a.limb1 divisor p0.1) _
            (div_limb-Safe a.limb1 divisor p0.1 h.limb1_ok h0.1)
            λ p1 h1.
              Safe-bind (Divides a.limb2 divisor p1.1) done (div_limb a.limb2 divisor p1.1) _
                (div_limb-Safe a.limb2 divisor p1.1 h.limb2_ok h1.1)
                λ p2 h2.
                  Safe-bind (Divides a.limb3 divisor p2.1) done (div_limb a.limb3 divisor p2.1) _
                    (div_limb-Safe a.limb3 divisor p2.1 h.limb3_ok h2.1)
                    λ p3 h3.
                      let q : U256 = record {
                        limb0 = p0.0;
                        limb1 = p1.0;
                        limb2 = p2.0;
                        limb3 = p3.0;
                      } in
                      (
                        record {
                          limb0_ok = h0.2;
                          limb1_ok = h1.2;
                          limb2_ok = h2.2;
                          limb3_ok = h3.2;
                        },
                        sym (
                            quotient_unique (value a) divisor (value q) p3.1
                              (omega (arith, value-factor q divisor, h0.0, h1.0, h2.0, h3.0)) h3.1),
                      )

-- The arithmetic of `U256` is that of the numbers: the order, the sum and the product, with none
-- exactly past 256 bits, the difference of no larger a number, and the quotient by a positive one;
-- no assertion fails.
pub u256_arithmetic :
    (a b : U256) (n : ℕ)
    → IsUint a
    → IsUint b
    → 0 < n
    → ((u256_le b a ≡ true) ↔ (value b ≤ value a))
      × Fits (checked_add a b) (value a + value b)
      × Fits (checked_mul_u64 a n) (value a * n)
      × (value b ≤ value a → Safe (λ r. IsUint r × (value r + value b ≡ value a)) (u256_sub a b))
      × Safe (λ q. IsUint q × (value q ≡ value a / n)) (div_u64 a n)
u256_arithmetic a b n h k p = (
  u256_le-value b a k h,
  checked_add-value a b h k,
  checked_mul_u64-value a n h,
  u256_sub-Safe a b h k,
  div_u64-Safe a n h p,
)
