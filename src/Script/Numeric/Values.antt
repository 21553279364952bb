-- ===== src/Script/Numeric/Values.antt =====
-- What the arithmetic opcodes of `numeric_binary` leave on the stack, read back as numbers
-- (interpreter.rs).
use bitmigo.Prelude.{ℕ, ◌^◌, ◌<◌, ◌≡◌, refl, Bool, true, false, ◌∷◌, arith, ◌==◌, if◌then◌else◌}
use bitmigo.Prelude.Int.{ℤ, ◌+ℤ◌, ◌-ℤ◌, ltb_ℤ}
use mathlib.Core.Path.{subst}
use bitmigo.Script.Error.{Outcome, ok, Safe, Safe-value}
use bitmigo.Script.Num.{
  Bytes, decode, num_add, num_sub, from_bool, unsigned_abs, cast_to_bool, is_zero,
}
use bitmigo.Script.Num.Value.{IsBytes}
use bitmigo.Script.Num.Bounds.{Within, IsEncoded, decode-Safe4, encode-Safe}
use bitmigo.Script.Num.RoundTrip.{cast_to_bool-decode}
use bitmigo.Script.Num.Codec.{decode-encode}
use bitmigo.Script.Stack.{Stack, require, push, pop, top}
use bitmigo.Script.Opcode
use bitmigo.Script.Numeric.{binary_result, numeric_binary, num_eq}

-- An opcode that succeeds leaves an element, which decodes to the number, above the rest.
abbrev pub Leaves : Outcome Stack → Stack → ℤ → Type 0
Leaves outcome s r =
    (item : Bytes) × (outcome ≡ ok (item ∷ s)) × IsBytes item × (decode item 5 ≡ ok r)

binary-Leaves :
    (opcode : ℕ) (a b : Bytes) (x y r : ℤ) (s : Stack)
    → (opcode == Opcode.op_numequalverify) ≡ false
    → decode a 4 ≡ ok x
    → decode b 4 ≡ ok y
    → binary_result opcode x y ≡ ok r
    → unsigned_abs r < 2 ^ 39
    → Leaves (numeric_binary opcode (b ∷ a ∷ s)) s r
unfolding numeric_binary require push pop top
binary-Leaves opcode a b x y r s ho ha hb hr lt =
    let (item, e, l, d) = decode-encode r 4 (omega arith) lt in
    (
      item,
      ground (arith, ho, ha, hb, hr, e),
      (Safe-value IsEncoded (subst (Safe IsEncoded) e (encode-Safe r)) refl).encoded_bytes,
      d,
    )

small : (a : Bytes) (x : ℤ) → IsBytes a → decode a 4 ≡ ok x → unsigned_abs x < 2 ^ 31
small a x h e = Safe-value (Within (2 ^ 31)) (decode-Safe4 a h) e

from_bool-small : (b : Bool) → unsigned_abs (from_bool b) < 2 ^ 39
unfolding from_bool
from_bool-small true = omega arith
from_bool-small false = omega arith

-- The truth of an opcode's result.
abbrev pub Tells : Outcome Stack → Stack → Bool → Type 0
Tells outcome s b = (item : Bytes) × (outcome ≡ ok (item ∷ s)) × (cast_to_bool item ≡ b)

from_bool-Tells :
    (outcome : Outcome Stack) (s : Stack) (b : Bool)
    → Leaves outcome s (from_bool b)
    → Tells outcome s b
unfolding from_bool is_zero
from_bool-Tells outcome s true (item, e, h, d) = (item, e, cast_to_bool-decode item 5 _ h d)
from_bool-Tells outcome s false (item, e, h, d) = (item, e, cast_to_bool-decode item 5 _ h d)

-- On operands that decode to `x`, below, and `y`, on top, the sum and the difference never
-- overflow: the element left decodes, in five bytes, to `x + y` or to `x - y`; `OP_LESSTHAN` and
-- `OP_NUMEQUAL` leave a true element exactly when `x` is less than or equals `y`; and `OP_MIN` and
-- `OP_MAX` leave one that decodes to the lesser or the greater.
pub binary_values :
    (a b : Bytes) (x y : ℤ) (s : Stack)
    → IsBytes a
    → IsBytes b
    → decode a 4 ≡ ok x
    → decode b 4 ≡ ok y
    → Leaves (numeric_binary Opcode.op_add (b ∷ a ∷ s)) s (x +ℤ y)
      × Leaves (numeric_binary Opcode.op_sub (b ∷ a ∷ s)) s (x -ℤ y)
      × Tells (numeric_binary Opcode.op_lessthan (b ∷ a ∷ s)) s (ltb_ℤ x y)
      × Tells (numeric_binary Opcode.op_numequal (b ∷ a ∷ s)) s (num_eq x y)
      × Leaves (numeric_binary Opcode.op_min (b ∷ a ∷ s)) s (if ltb_ℤ x y then x else y)
      × Leaves (numeric_binary Opcode.op_max (b ∷ a ∷ s)) s (if ltb_ℤ x y then y else x)
unfolding binary_result
binary_values a b x y s ba bb ha hb =
    let hx = small a x ba ha in
    let hy = small b y bb hb in
    (
      binary-Leaves Opcode.op_add a b x y (x +ℤ y) s refl ha hb
          (unfold num_add ◌+ℤ◌ in ground (arith, hx, hy)) (unfold ◌+ℤ◌ in ground (arith, hx, hy)),
      binary-Leaves Opcode.op_sub a b x y (x -ℤ y) s refl ha hb
          (unfold num_sub ◌-ℤ◌ in ground (arith, hx, hy)) (unfold ◌-ℤ◌ in ground (arith, hx, hy)),
      from_bool-Tells _ s (ltb_ℤ x y) (
          binary-Leaves Opcode.op_lessthan a b x y (from_bool (ltb_ℤ x y)) s refl ha hb refl
            (from_bool-small (ltb_ℤ x y))),
      from_bool-Tells _ s (num_eq x y) (
          binary-Leaves Opcode.op_numequal a b x y (from_bool (num_eq x y)) s refl ha hb refl
            (from_bool-small (num_eq x y))),
      binary-Leaves Opcode.op_min a b x y (if ltb_ℤ x y then x else y) s refl ha hb (ground arith)
          (ground (arith, hx, hy)),
      binary-Leaves Opcode.op_max a b x y (if ltb_ℤ x y then y else x) s refl ha hb (ground arith)
          (ground (arith, hx, hy)),
    )
