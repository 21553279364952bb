-- ===== src/Script/Num/Value.antt =====
-- What `decode_value` computes, in plain recursion: a magnitude and a sign (num.rs).
use bitmigo.Prelude.{
  ℕ, ◌+◌, ◌-◌, ◌*◌, ◌%◌, ◌^◌, ◌<◌, ◌≡◌, ap, ◌∙◌, Bool, List, [], ◌∷◌, leb, if◌then◌else◌, length,
  arith,
}
use bitmigo.Prelude.Int.{pos}
use bitmigo.Script.Num.{Bytes, negate, magnitude_loop, last_byte, decode_value}
use native.Mathlib.Numerals.{towards_suc}
use native.Mathlib.Nat.{pow-suc}

abbrev pub All {ℓ} : {A : Type ℓ} → (A → Type 0) → List A → Type 0
All P [] = Unit
All P (x ∷ xs) = P x × All P xs

abbrev pub IsByte : ℕ → Type 0
IsByte b = b < 256

abbrev pub IsBytes : Bytes → Type 0
IsBytes = All IsByte

-- The little-endian number of a string of bytes.
unfoldable pub le_value : Bytes → ℕ
le_value [] = 0
le_value (b ∷ bs) = b + 256 * le_value bs

-- The same without the top bit of the last byte.
unfoldable pub magnitude : Bytes → ℕ
magnitude [] = 0
magnitude (b ∷ []) = b % 128
magnitude (b ∷ c ∷ bs) = b + 256 * magnitude (c ∷ bs)

unfoldable pub sign : Bytes → Bool
sign bytes = leb 128 (last_byte bytes)

shift_byte : (i : ℕ) → 2 ^ (8 * (i + 1)) ≡ 256 * 2 ^ (8 * i)
shift_byte i = ap (λ (t : ℕ). 2 ^ t) eight ∙ simp towards_suc (omega arith)
  where
    eight : 8 * (i + 1) ≡ 8 * i + 8
    eight = omega arith

magnitude_loop-le_value :
    (bytes : Bytes) (i m : ℕ) → magnitude_loop bytes i m ≡ m + le_value bytes * 2 ^ (8 * i)
unfolding magnitude_loop le_value
magnitude_loop-le_value [] i m = omega arith
magnitude_loop-le_value (b ∷ bs) i m = omega (
  arith,
  magnitude_loop-le_value bs (i + 1) (m + b * 2 ^ (8 * i)),
  ap (λ (t : ℕ). le_value bs * t) (shift_byte i),
)

-- The weight of the sign bit.
abbrev pub sign_weight : Bytes → ℕ
sign_weight bytes = if sign bytes then 128 * 2 ^ (8 * (length bytes - 1)) else 0

le_value-split :
    (b : ℕ) (bs : Bytes)
    → IsBytes (b ∷ bs)
    → le_value (b ∷ bs) ≡ magnitude (b ∷ bs) + sign_weight (b ∷ bs)
unfolding le_value magnitude sign last_byte
le_value-split b [] h = ground arith
le_value-split b (c ∷ bs) h = ground (arith, le_value-split c bs h.1, shift_byte (length bs))

-- The sign and magnitude are the value.
pub decode_value-magnitude :
    (b : ℕ) (bs : Bytes)
    → IsBytes (b ∷ bs)
    → decode_value (b ∷ bs)
      ≡ (if sign (b ∷ bs) then negate (pos (magnitude (b ∷ bs))) else pos (magnitude (b ∷ bs)))
unfolding decode_value sign
decode_value-magnitude b bs h =
    ground (arith, magnitude_loop-le_value (b ∷ bs) 0 0, le_value-split b bs h)

pub magnitude-lt :
    (b : ℕ) (bs : Bytes) → IsBytes (b ∷ bs) → magnitude (b ∷ bs) < 128 * 256 ^ length bs
unfolding magnitude
magnitude-lt b [] h = omega arith
magnitude-lt b (c ∷ bs) h = omega (arith, magnitude-lt c bs h.1, pow-suc 256 (length bs))
