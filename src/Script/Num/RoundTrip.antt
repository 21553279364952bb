-- ===== src/Script/Num/RoundTrip.antt =====
-- `encode` and `decode` of num.rs against each other, and `cast_to_bool` against the number.
use bitmigo.Prelude.{
  ℕ, zero, suc, ◌+◌, ◌*◌, ◌/◌, ◌%◌, ◌^◌, ◌≤◌, ◌<◌, ◌≡◌, refl, ap, ◌∙◌, Bool, true, false, not, [],
  ◌∷◌, ◌==◌, if◌then◌else◌, length, arith,
}
use bitmigo.Prelude.Int.{pos}
use native.Mathlib.Decide.{dec_lt}
use native.Mathlib.Nat.{pow-suc}
use bitmigo.Script.Error.{ok}
use bitmigo.Script.Num.{
  Bytes, ScriptNum, negate, last_byte, decode, add_sign, magnitude_bytes, is_zero, cast_to_bool,
}
use bitmigo.Script.Num.Value.{IsBytes, magnitude, sign, decode_value-magnitude}

cast_to_bool-magnitude :
    (bytes : Bytes) → IsBytes bytes → cast_to_bool bytes ≡ not (magnitude bytes == 0)
unfolding cast_to_bool magnitude
cast_to_bool-magnitude [] h = refl
cast_to_bool-magnitude (b ∷ []) h = ground arith
cast_to_bool-magnitude (b ∷ c ∷ bs) h = ground (arith, cast_to_bool-magnitude (c ∷ bs) h.1)

is_zero-magnitude : (s : Bool) (m : ℕ) → is_zero (if s then negate (pos m) else pos m) ≡ (m == 0)
unfolding is_zero
is_zero-magnitude true zero = refl
is_zero-magnitude true (suc m) = ground arith
is_zero-magnitude false m = refl

-- An element that decodes as a number, under any size limit, is true exactly when the number is
-- not zero.
pub cast_to_bool-decode :
    (bytes : Bytes) (size_max : ℕ) (n : ScriptNum)
    → IsBytes bytes
    → decode bytes size_max ≡ ok n
    → cast_to_bool bytes ≡ not (is_zero n)
unfolding decode
cast_to_bool-decode [] size_max n h e = unfold cast_to_bool is_zero in ground arith
cast_to_bool-decode (b ∷ bs) size_max n h e = ground (
  arith,
  cast_to_bool-magnitude (b ∷ bs) h,
  decode_value-magnitude b bs h,
  is_zero-magnitude (sign (b ∷ bs)) (magnitude (b ∷ bs)),
)

magnitude_bytes-zero : (fuel : ℕ) → magnitude_bytes fuel 0 ≡ []
unfolding magnitude_bytes
magnitude_bytes-zero zero = refl
magnitude_bytes-zero (suc fuel) = refl

magnitude-add_sign_cons :
    (s : Bool) (b c : ℕ) (bs : Bytes)
    → magnitude (add_sign s (b ∷ c ∷ bs)) ≡ b + 256 * magnitude (add_sign s (c ∷ bs))
unfolding magnitude add_sign
magnitude-add_sign_cons s b c [] = ground arith
magnitude-add_sign_cons s b c (d ∷ ds) = refl

pub magnitude_bytes-suc :
    (fuel m : ℕ) → 0 < m → magnitude_bytes (suc fuel) m ≡ (m % 256) ∷ magnitude_bytes fuel (m / 256)
unfolding magnitude_bytes
magnitude_bytes-suc fuel m h = ground arith

-- The last byte of a written magnitude: alone, or with its sign.
one_byte : (s : Bool) (m : ℕ) → m < 256 → magnitude (add_sign s ((m % 256) ∷ [])) ≡ m
unfolding magnitude add_sign
one_byte s m h = ground arith

one_byte_list : (fuel m : ℕ) → 0 < m → m < 256 → magnitude_bytes (suc fuel) m ≡ (m % 256) ∷ []
one_byte_list fuel m h k =
    magnitude_bytes-suc fuel m h
    ∙ ap (λ (t : ℕ). (m % 256) ∷ magnitude_bytes fuel t) (omega arith)
    ∙ ap (λ (l : Bytes). (m % 256) ∷ l) (magnitude_bytes-zero fuel)

two_bytes :
    (fuel m : ℕ)
    → 0 < m / 256
    → magnitude_bytes (suc (suc fuel)) m
      ≡ (m % 256) ∷ (m / 256 % 256) ∷ magnitude_bytes fuel (m / 256 / 256)
two_bytes fuel m h =
    magnitude_bytes-suc (suc fuel) m (omega arith)
    ∙ ap (λ (l : Bytes). (m % 256) ∷ l) (magnitude_bytes-suc fuel (m / 256) h)

-- The written magnitude reads back.
pub magnitude-add_sign :
    (fuel m : ℕ) (s : Bool)
    → 0 < m
    → m < 256 ^ fuel
    → magnitude (add_sign s (magnitude_bytes fuel m)) ≡ m
magnitude-add_sign zero m s h k = absurd (omega arith)
magnitude-add_sign (suc zero) m s h k =
    rw (one_byte_list 0 m h (omega arith)) (one_byte s m (omega arith))
magnitude-add_sign (suc (suc fuel)) m s h k = elim (dec_lt 0 (m / 256)) [
  | yes more ↦
      rw (two_bytes fuel m more, magnitude-add_sign_cons)
        (omega (
          arith,
          ap (λ (l : Bytes). magnitude (add_sign s l)) (magnitude_bytes-suc fuel (m / 256) more),
          magnitude-add_sign (suc fuel) (m / 256) s more (omega (arith, pow-suc 256 (suc fuel))),
        ))
  | no last ↦ rw (one_byte_list (suc fuel) m h (omega arith)) (one_byte s m (omega arith))
]

sign-add_sign_cons :
    (s : Bool) (b c : ℕ) (bs : Bytes) → sign (add_sign s (b ∷ c ∷ bs)) ≡ sign (add_sign s (c ∷ bs))
unfolding sign last_byte add_sign
sign-add_sign_cons s b c [] = ground arith
sign-add_sign_cons s b c (d ∷ ds) = refl

pub sign-add_sign : (s : Bool) (b : ℕ) (bs : Bytes) → sign (add_sign s (b ∷ bs)) ≡ s
sign-add_sign true b [] = unfold sign last_byte add_sign in ground arith
sign-add_sign false b [] = unfold sign last_byte add_sign in ground arith
sign-add_sign s b (c ∷ bs) = sign-add_sign_cons s b c bs ∙ sign-add_sign s c bs

length-add_sign_cons :
    (s : Bool) (b c : ℕ) (bs : Bytes)
    → length (add_sign s (b ∷ c ∷ bs)) ≡ suc (length (add_sign s (c ∷ bs)))
unfolding add_sign
length-add_sign_cons s b c bs = refl

one_byte_length :
    (s : Bool) (m k : ℕ)
    → m < 256
    → m < 128 * 256 ^ k
    → length (add_sign s ((m % 256) ∷ [])) ≤ suc k
unfolding add_sign
one_byte_length s m zero h e = ground arith
one_byte_length s m (suc k) h e = ground arith

-- A magnitude with 8k + 7 bits takes `k + 1` bytes at most.
pub length-encoded :
    (fuel k m : ℕ) (s : Bool)
    → 0 < m
    → m < 128 * 256 ^ k
    → m < 256 ^ fuel
    → length (add_sign s (magnitude_bytes fuel m)) ≤ suc k
length-encoded zero k m s h e f = absurd (omega arith)
length-encoded (suc zero) k m s h e f =
    rw (one_byte_list 0 m h (omega arith)) (one_byte_length s m k (omega arith) e)
length-encoded (suc (suc fuel)) zero m s h e f =
    rw (one_byte_list (suc fuel) m h (omega arith)) (one_byte_length s m 0 (omega arith) e)
length-encoded (suc (suc fuel)) (suc k) m s h e f = elim (dec_lt 0 (m / 256)) [
  | yes more ↦
      rw (two_bytes fuel m more, length-add_sign_cons)
        (omega (
          arith,
          ap (λ (l : Bytes). length (add_sign s l)) (magnitude_bytes-suc fuel (m / 256) more),
          length-encoded (suc fuel) k (m / 256) s more (omega (arith, pow-suc 256 k))
              (omega (arith, pow-suc 256 (suc fuel))),
        ))
  | no last ↦
      rw (one_byte_list (suc fuel) m h (omega arith)) (one_byte_length s m (suc k) (omega arith) e)
]
