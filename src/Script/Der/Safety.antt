-- ===== src/Script/Der/Safety.antt =====
-- The strict DER check never indexes outside the signature, and decides the shape
-- `0x30 len 0x02 lenR R 0x02 lenS S hashtype` (interpreter.rs, `is_valid_signature_encoding`).
use bitmigo.Prelude.{
  ℕ, zero, suc, ◌+◌, ◌<◌, ◌≡◌, refl, Bool, not, [], ◌∷◌, length, get_or, arith, leb, ltb, ◌==◌,
  ◌||◌, ◌&&◌,
}
use bitmigo.Script.Error.{ok, Safe}
use bitmigo.Script.Num.{Bytes}
use bitmigo.Script.Flags.{ScriptFlags}
use bitmigo.Script.Der.{at, valid_integer, is_valid_signature_encoding, check_signature_encoding}

-- The byte at an index, 0 outside.
abbrev pub byte_at : Bytes → ℕ → ℕ
byte_at sig i = get_or sig i 0

at-byte_at : (sig : Bytes) (i : ℕ) → i < length sig → at sig i ≡ ok (byte_at sig i)
at-byte_at [] i h = absurd (omega arith)
at-byte_at (b ∷ bs) zero h = refl
at-byte_at (b ∷ bs) (suc i) h = at-byte_at bs i (omega arith)

-- An integer element: its type byte, at least one byte, not negative, no needless leading zero.
abbrev pub is_integer : Bytes → ℕ → ℕ → Bool
is_integer sig tag len =
    byte_at sig tag == 0x02
    && (ltb 0 len
        && (ltb (byte_at sig (tag + 2)) 128
            && (leb len 1
                || (not (byte_at sig (tag + 2) == 0) || leb 128 (byte_at sig (tag + 3))))))

valid_integer-is_integer :
    (sig : Bytes) (tag len : ℕ)
    → tag + 2 + len < length sig
    → valid_integer sig tag len ≡ ok (is_integer sig tag len)
unfolding valid_integer
valid_integer-is_integer sig tag len h =
    ground (arith, at-byte_at sig tag, at-byte_at sig (tag + 2), at-byte_at sig (tag + 3))

-- The lengths of R and S, where the signature says that they stand.
abbrev pub r_length : Bytes → ℕ
r_length sig = byte_at sig 3

abbrev pub s_length : Bytes → ℕ
s_length sig = byte_at sig (5 + r_length sig)

-- The framing: the size limits, the compound type, the total, and the two element lengths.
abbrev pub is_framed : Bytes → Bool
is_framed sig =
    leb 9 (length sig)
    && (leb (length sig) 73
        && (byte_at sig 0 == 0x30
            && (byte_at sig 1 + 3 == length sig
                && (r_length sig + s_length sig + 7 == length sig))))

abbrev pub is_der : Bytes → Bool
is_der sig =
    is_framed sig
    && (is_integer sig 2 (r_length sig) && is_integer sig (r_length sig + 4) (s_length sig))

-- On every byte string the check returns, and it accepts exactly the strict DER signatures.
pub is_valid-is_der : (sig : Bytes) → is_valid_signature_encoding sig ≡ ok (is_der sig)
unfolding is_valid_signature_encoding
is_valid-is_der sig = ground (
  arith,
  at-byte_at sig 0,
  at-byte_at sig 1,
  at-byte_at sig 3,
  at-byte_at sig (5 + r_length sig),
  valid_integer-is_integer sig 2 (r_length sig),
  valid_integer-is_integer sig (r_length sig + 4) (s_length sig),
)

pub check_encoding-Safe :
    (sig : Bytes) (flags : ScriptFlags) → Safe (λ _. Unit) (check_signature_encoding sig flags)
unfolding check_signature_encoding
check_encoding-Safe sig flags = ground (arith, is_valid-is_der sig)
