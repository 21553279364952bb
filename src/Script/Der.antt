-- ===== src/Script/Der.antt =====
-- `is_valid_signature_encoding` and `check_signature_encoding` of
-- crates/consensus/src/script/interpreter.rs: strict DER (BIP66).
pub mod Safety
use bitmigo.Prelude.{
  ℕ, ◌+◌, ◌-◌, Bool, true, false, not, ◌&&◌, ◌||◌, leb, ltb, ◌==◌, if◌then◌else◌, length, get_elem?,
}
use bitmigo.Script.Error.{Outcome, ok, err, ◌>>=◌, ◌>>◌, fail_if, sig_der}
use bitmigo.Script.Num.{Bytes}
use bitmigo.Script.Stack.{expect}
use bitmigo.Script.Flags.{ScriptFlags, contains, flag_dersig}

-- `*sig.get(index).expect(..)`
abbrev pub at : Bytes → ℕ → Outcome ℕ
at sig index = expect (get_elem? sig index)

-- An integer of `len` bytes behind the type byte at `tag`: non-empty, not negative, not padded.
-- The three `if`s of the source for R, and the three for S. `at(i) & 0x80 != 0` is `128 <= at(i)`.
unfoldable pub valid_integer : Bytes → ℕ → ℕ → Outcome Bool
valid_integer sig tag len = do
  type_byte ← at sig tag
  if not (type_byte == 0x02) || len == 0 then ok false else do
    first ← at sig (tag + 2)
    if leb 128 first
        then ok false
        else if ltb 1 len && first == 0x00
        then (do second ← at sig (tag + 3); ok (leb 128 second))
        else ok true

unfoldable pub valid_lengths : Bytes → Outcome (Bool × ℕ × ℕ)
valid_lengths sig = do
  kind ← at sig 0
  len ← at sig 1
  if not (kind == 0x30) || not (len == length sig - 3) then ok (false, 0, 0) else do
    len_r ← at sig 3
    if leb (length sig) (5 + len_r)
        then ok (false, 0, 0)
        else do len_s ← at sig (5 + len_r); ok (len_r + len_s + 7 == length sig, len_r, len_s)

unfoldable pub is_valid_signature_encoding : Bytes → Outcome Bool
unfolding valid_lengths
is_valid_signature_encoding sig = if ltb (length sig) 9 || ltb 73 (length sig) then ok false else do
  (consistent, len_r, len_s) ← valid_lengths sig
  if consistent
      then (do
        r ← valid_integer sig 2 len_r
        if r then valid_integer sig (len_r + 4) len_s else ok false)
      else ok false

unfoldable pub check_signature_encoding : Bytes → ScriptFlags → Outcome (Unit {0})
check_signature_encoding signature flags =
    if length signature == 0
    then ok tt
    else if contains flags flag_dersig
    then (do valid ← is_valid_signature_encoding signature; fail_if (not valid) sig_der)
    else ok tt
