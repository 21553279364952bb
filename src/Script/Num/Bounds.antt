-- ===== src/Script/Num/Bounds.antt =====
-- The range of decoded numbers, the panics of num.rs, and the truth value of an element.
use bitmigo.Prelude.{
  ℕ, zero, suc, ◌+◌, ◌*◌, ◌/◌, ◌^◌, ◌≤◌, ◌<◌, ◌≡◌, refl, Bool, true, false, [], ◌∷◌, if◌then◌else◌,
  length, arith,
}
use bitmigo.Prelude.Int.{ℤ, pos, negsuc, ◌+ℤ◌, ◌-ℤ◌}
use native.Mathlib.Nat.{pow-le-pow_right}
use bitmigo.Script.Error.{Safe}
use bitmigo.Script.Num.{
  Bytes, ScriptNum, negate, unsigned_abs, decode_value, decode, encode, num_add, num_sub, num_neg,
  num_abs, add_sign, magnitude_bytes, is_negative,
}
use bitmigo.Script.Num.Value.{IsBytes, magnitude, sign, decode_value-magnitude, magnitude-lt}

-- Absolute values as decoded operands have.
abbrev pub Within : ℕ → ScriptNum → Type 0
Within bound n = unsigned_abs n < bound

negate-abs : (n : ℤ) → unsigned_abs (negate n) ≡ unsigned_abs n
negate-abs (pos zero) = refl
negate-abs (pos (suc n)) = refl
negate-abs (negsuc n) = refl

pub decode_value-lt :
    (b : ℕ) (bs : Bytes)
    → IsBytes (b ∷ bs)
    → unsigned_abs (decode_value (b ∷ bs)) < 128 * 256 ^ length bs
decode_value-lt b bs h = rw (decode_value-magnitude b bs h) (split (sign (b ∷ bs)))
  where
    split :
        (s : Bool)
        → unsigned_abs (if s then negate (pos (magnitude (b ∷ bs))) else pos (magnitude (b ∷ bs)))
          < 128 * 256 ^ length bs
    split true = rw (negate-abs) (magnitude-lt b bs h)
    split false = magnitude-lt b bs h

-- A string of at most `k + 1` bytes decodes below 2^(8k + 7) in absolute value.
pub pow_mono : (n k : ℕ) → n ≤ k → 256 ^ n ≤ 256 ^ k
pow_mono n k h = pow-le-pow_right (omega arith) h

pub decode-Safe4 : (bytes : Bytes) → IsBytes bytes → Safe (Within (2 ^ 31)) (decode bytes 4)
unfolding decode
decode-Safe4 [] h = omega arith
decode-Safe4 (b ∷ bs) h = ground (arith, decode_value-lt b bs h, pow_mono (length bs) 3)

pub decode-Safe5 : (bytes : Bytes) → IsBytes bytes → Safe (Within (2 ^ 39)) (decode bytes 5)
unfolding decode
decode-Safe5 [] h = omega arith
decode-Safe5 (b ∷ bs) h = ground (arith, decode_value-lt b bs h, pow_mono (length bs) 4)

pub magnitude_bytes-IsBytes : (fuel m : ℕ) → IsBytes (magnitude_bytes fuel m)
unfolding magnitude_bytes
magnitude_bytes-IsBytes zero m = tt
magnitude_bytes-IsBytes (suc fuel) m = ground (arith, magnitude_bytes-IsBytes fuel (m / 256))

length-magnitude_bytes : (fuel m : ℕ) → length (magnitude_bytes fuel m) ≤ fuel
unfolding magnitude_bytes
length-magnitude_bytes zero m = omega arith
length-magnitude_bytes (suc fuel) m = ground (arith, length-magnitude_bytes fuel (m / 256))

pub add_sign-IsBytes : (s : Bool) (bytes : Bytes) → IsBytes bytes → IsBytes (add_sign s bytes)
unfolding add_sign
add_sign-IsBytes s [] h = tt
add_sign-IsBytes s (b ∷ []) h = ground arith
add_sign-IsBytes s (b ∷ c ∷ bs) h = (h.0, add_sign-IsBytes s (c ∷ bs) h.1)

length-add_sign : (s : Bool) (bytes : Bytes) → length (add_sign s bytes) ≤ length bytes + 1
unfolding add_sign
length-add_sign s [] = omega arith
length-add_sign s (b ∷ []) = ground arith
length-add_sign s (b ∷ c ∷ bs) = omega (arith, length-add_sign s (c ∷ bs))

-- The byte string of a number: nine bytes at most.
pub record IsEncoded (bytes : Bytes) : Type 0 where
  pub encoded_bytes : IsBytes bytes
  pub encoded_length : length bytes ≤ 9

-- `encode` does not panic, and gives at most nine bytes.
pub encode-Safe : (n : ScriptNum) → Safe IsEncoded (encode n)
unfolding encode
encode-Safe n = ground (
  arith,
  length-add_sign (is_negative n) (magnitude_bytes 8 (unsigned_abs n)),
  length-magnitude_bytes 8 (unsigned_abs n),
  add_sign-IsBytes (is_negative n) _ (magnitude_bytes-IsBytes 8 (unsigned_abs n)),
)

-- Sums, differences and negations of bounded operands do not panic.
pub num_add-Safe :
    (k : ℕ) (a b : ScriptNum)
    → k ≤ 2 ^ 62
    → Within k a
    → Within k b
    → Safe (Within (k + k)) (num_add a b)
unfolding num_add ◌+ℤ◌
num_add-Safe k a b hk ha hb = ground arith

pub num_sub-Safe :
    (k : ℕ) (a b : ScriptNum)
    → k ≤ 2 ^ 62
    → Within k a
    → Within k b
    → Safe (Within (k + k)) (num_sub a b)
unfolding num_sub ◌-ℤ◌
num_sub-Safe k a b hk ha hb = ground arith

pub num_neg-Safe : (k : ℕ) (a : ScriptNum) → k ≤ 2 ^ 62 → Within k a → Safe (Within k) (num_neg a)
unfolding num_neg
num_neg-Safe k (pos zero) hk h = h
num_neg-Safe k (pos (suc n)) hk h = ground arith
num_neg-Safe k (negsuc n) hk h = ground arith

pub num_abs-Safe : (k : ℕ) (a : ScriptNum) → k ≤ 2 ^ 62 → Within k a → Safe (Within k) (num_abs a)
unfolding num_abs
num_abs-Safe k (pos n) hk h = h
num_abs-Safe k (negsuc n) hk h = ground arith
