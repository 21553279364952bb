-- ===== src/Script/Num/Codec.antt =====
-- The round trip of `encode` and `decode` of num.rs, and that `encode` writes the shortest string.
use bitmigo.Prelude.{
  ℕ, zero, suc, ◌*◌, ◌^◌, ◌≤◌, ◌<◌, ◌≡◌, refl, sym, ap, ◌∙◌, Bool, true, false, [], ◌∷◌,
  if◌then◌else◌, length, arith,
}
use bitmigo.Prelude.Int.{ℤ, pos, negsuc}
use native.Mathlib.Decide.{dec_lt}
use bitmigo.Script.Error.{ok}
use bitmigo.Script.Num.{
  Bytes, ScriptNum, negate, unsigned_abs, decode, encode, add_sign, magnitude_bytes, is_negative,
  num_zero,
}
use bitmigo.Script.Num.Value.{IsBytes, magnitude, sign, decode_value-magnitude}
use bitmigo.Script.Num.Bounds.{decode_value-lt, pow_mono, magnitude_bytes-IsBytes, add_sign-IsBytes}
use bitmigo.Script.Num.RoundTrip.{
  magnitude-add_sign, sign-add_sign, length-encoded, magnitude_bytes-suc,
}

-- A sign and a magnitude as an integer.
abbrev signed : Bool → ℕ → ℤ
signed s m = if s then negate (pos m) else pos m

decode-nonempty :
    (bytes : Bytes) (size_max : ℕ)
    → 0 < length bytes
    → IsBytes bytes
    → length bytes ≤ size_max
    → size_max ≤ 5
    → decode bytes size_max ≡ ok (signed (sign bytes) (magnitude bytes))
unfolding decode
decode-nonempty [] size_max p h l k = absurd (omega arith)
decode-nonempty (b ∷ bs) size_max p h l k =
    ground (arith, decode_value-magnitude b bs h, decode_value-lt b bs h, pow_mono (length bs) 4)

signed-abs : (n : ℤ) → signed (is_negative n) (unsigned_abs n) ≡ n
signed-abs (pos n) = refl
signed-abs (negsuc n) = refl

-- The bytes that `encode` writes for a number that is not zero.
abbrev written : ScriptNum → Bytes
written n = add_sign (is_negative n) (magnitude_bytes 8 (unsigned_abs n))

add_sign-pos : (s : Bool) (b : ℕ) (bs : Bytes) → 0 < length (add_sign s (b ∷ bs))
unfolding add_sign
add_sign-pos s b [] = ground arith
add_sign-pos s b (c ∷ bs) = omega arith

written-pos : (n : ScriptNum) → 0 < unsigned_abs n → 0 < length (written n)
written-pos n p = rw (magnitude_bytes-suc 7 (unsigned_abs n) p) (add_sign-pos (is_negative n) _ _)

written-sign : (n : ScriptNum) → 0 < unsigned_abs n → sign (written n) ≡ is_negative n
written-sign n p = rw (magnitude_bytes-suc 7 (unsigned_abs n) p) (sign-add_sign (is_negative n) _ _)

encode-written :
    (n : ScriptNum) → 0 < unsigned_abs n → length (written n) ≤ 9 → encode n ≡ ok (written n)
unfolding encode
encode-written n p l = ground arith

pow5 : (j : ℕ) → j ≤ 4 → 128 * 256 ^ j ≤ 2 ^ 39
pow5 j h = omega (arith, pow_mono j 4 h)

-- A number with 8k + 7 bits is written in `k + 1` bytes at most, and these read back.
written-decode :
    (n : ScriptNum) (k : ℕ)
    → 0 < unsigned_abs n
    → k ≤ 4
    → unsigned_abs n < 128 * 256 ^ k
    → (length (written n) ≤ suc k) × (decode (written n) (suc k) ≡ ok n)
written-decode n k p hk h =
    let small : unsigned_abs n < 2 ^ 39 = omega (arith, pow5 k hk) in
    let short : length (written n) ≤ suc k =
      length-encoded 8 k (unsigned_abs n) (is_negative n) p h (omega arith) in
    (
      short,
      decode-nonempty (written n) (suc k) (written-pos n p)
            (add_sign-IsBytes (is_negative n) _ (magnitude_bytes-IsBytes 8 (unsigned_abs n))) short
            (omega arith)
          ∙ ap ok (
              ap (λ (s : Bool). signed s (magnitude (written n))) (written-sign n p)
              ∙ ap (λ (m : ℕ). signed (is_negative n) m)
                  (magnitude-add_sign 8 (unsigned_abs n) (is_negative n) p (omega arith))
              ∙ signed-abs n),
    )

encode-zero : (n : ScriptNum) → unsigned_abs n ≡ 0 → (encode n ≡ ok []) × (n ≡ num_zero)
unfolding encode
encode-zero (pos n) h = ground arith
encode-zero (negsuc n) h = absurd (omega arith)

decode-empty : (size_max : ℕ) → size_max ≤ 5 → decode [] size_max ≡ ok num_zero
unfolding decode
decode-empty size_max h = ground arith

-- A number of 8k + 7 bits, `k` at most 4, is written by `encode`, in `k + 1` bytes at most, and
-- `decode` with the limit `k + 1` reads it back.
pub decode-encode :
    (n : ScriptNum) (k : ℕ)
    → k ≤ 4
    → unsigned_abs n < 128 * 256 ^ k
    → (bytes : Bytes) × (encode n ≡ ok bytes)
      × (length bytes ≤ suc k)
      × (decode bytes (suc k) ≡ ok n)
decode-encode n k hk h = elim (dec_lt 0 (unsigned_abs n)) [
  | yes p ↦
      let (short, back) = written-decode n k p hk h in
      (written n, encode-written n p (omega arith), short, back)
  | no z ↦
      let (e, zero_n) = encode-zero n (omega arith) in
      ([], e, omega arith, decode-empty (suc k) (omega arith) ∙ ap ok (sym zero_n))
]

signed_magnitude : (s : Bool) (m : ℕ) (n : ℤ) → signed s m ≡ n → unsigned_abs n ≡ m
signed_magnitude true zero n e = ap unsigned_abs (sym e)
signed_magnitude true (suc m) n e = ap unsigned_abs (sym e)
signed_magnitude false m n e = ap unsigned_abs (sym e)

decoded-magnitude :
    (b : ℕ) (bs : Bytes) (size_max : ℕ) (n : ScriptNum)
    → IsBytes (b ∷ bs)
    → decode (b ∷ bs) size_max ≡ ok n
    → (unsigned_abs n < 128 * 256 ^ length bs) × (length bs ≤ 4)
unfolding decode
decoded-magnitude b bs size_max n h e = ground (arith, decode_value-lt b bs h)

-- Whatever bytes decode to a number, `encode` writes no more of them for it.
pub encode_shortest :
    (bytes : Bytes) (size_max : ℕ) (n : ScriptNum)
    → IsBytes bytes
    → decode bytes size_max ≡ ok n
    → (short : Bytes) × (encode n ≡ ok short) × (length short ≤ length bytes)
encode_shortest [] size_max n h e =
    ([], (encode-zero n (unfold decode in ground arith)).0, omega arith)
encode_shortest (b ∷ bs) size_max n h e =
    let (lt, le) = decoded-magnitude b bs size_max n h e in
    let (short, written_e, short_len, _) = decode-encode n (length bs) le lt in
    (short, written_e, short_len)
