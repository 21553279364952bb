-- ===== src/Script/StackOps/Effects.antt =====
-- What the stack opcodes of `stack_op_pairs` and `stack_op_singles` do to the elements
-- (interpreter.rs). A list has the top of the stack first.
use bitmigo.Prelude.{
  ℕ, zero, suc, ◌≤◌, ◌≡◌, [], ◌∷◌, ◌++◌, some, length, get_elem?, take, drop, arith,
}
use bitmigo.Prelude.Int.{pos}
use bitmigo.Script.Error.{ok}
use bitmigo.Script.Num.{Bytes, decode, to_clamped_i32}
use bitmigo.Script.Stack.{Stack, require, push, pop, top, swap, remove}
use bitmigo.Script.Stack.Safety.{IsStack}
use bitmigo.Script.Opcode
use bitmigo.Script.Machine.{Machine}
use bitmigo.Script.StackOps.{
  stack_op_pairs, stack_op_singles, drop2, dup2, dup3, over2, rot2, swap2, pick_or_roll,
}

-- The machine with another stack.
abbrev pub with : Machine → Stack → Machine
with m s = record m { stack = s }

-- The two-element opcodes on elements of legal size: which elements they drop, copy and move.
pub pair_effects :
    (m : Machine) (a b c d e f : Bytes) (s : Stack)
    → IsStack (a ∷ b ∷ c ∷ d ∷ e ∷ f ∷ s)
    → (stack_op_pairs Opcode.op_2drop (with m (a ∷ b ∷ s)) ≡ ok (with m s))
      × (stack_op_pairs Opcode.op_2dup (with m (a ∷ b ∷ s)) ≡ ok (with m (a ∷ b ∷ a ∷ b ∷ s)))
      × (stack_op_pairs Opcode.op_3dup (with m (a ∷ b ∷ c ∷ s))
          ≡ ok (with m (a ∷ b ∷ c ∷ a ∷ b ∷ c ∷ s)))
      × (stack_op_pairs Opcode.op_2over (with m (a ∷ b ∷ c ∷ d ∷ s))
          ≡ ok (with m (c ∷ d ∷ a ∷ b ∷ c ∷ d ∷ s)))
      × (stack_op_pairs Opcode.op_2rot (with m (a ∷ b ∷ c ∷ d ∷ e ∷ f ∷ s))
          ≡ ok (with m (e ∷ f ∷ a ∷ b ∷ c ∷ d ∷ s)))
      × (stack_op_pairs Opcode.op_2swap (with m (a ∷ b ∷ c ∷ d ∷ s))
          ≡ ok (with m (c ∷ d ∷ a ∷ b ∷ s)))
unfolding stack_op_pairs drop2 dup2 dup3 over2 rot2 swap2 require push pop top remove swap
pair_effects m a b c d e f s (ha, (hb, (hc, (hd, (he, (hf, _)))))) = (
  ground arith,
  ground (arith, ha.item_length, hb.item_length),
  ground (arith, ha.item_length, hb.item_length, hc.item_length),
  ground (arith, hc.item_length, hd.item_length),
  ground (arith, he.item_length, hf.item_length),
  ground arith,
)

item_at :
    (s : Stack) (n : ℕ) (x : Bytes)
    → IsStack s
    → get_elem? s n ≡ some x
    → (suc n ≤ length s) × (length x ≤ 520)
item_at [] n x h e = ground (arith, e)
item_at (y ∷ s) zero x h e = ground (arith, e, h.0.item_length)
item_at (y ∷ s) (suc n) x h e = let (lo, hi) = item_at s n x h.1 e in (omega arith, hi)

-- Above a stack of legal elements, where the top element is a number of 1,000 at most and the
-- stack has an element at that depth, counted from 0, `OP_PICK` copies and `OP_ROLL` moves that
-- element to the top.
pub pick_roll_effects :
    (a x : Bytes) (n : ℕ) (s : Stack)
    → IsStack s
    → n ≤ 1000
    → decode a 4 ≡ ok (pos n)
    → get_elem? s n ≡ some x
    → (stack_op_singles Opcode.op_pick (a ∷ s) ≡ ok (x ∷ s))
      × (stack_op_singles Opcode.op_roll (a ∷ s) ≡ ok (x ∷ (take n s ++ drop (suc n) s)))
unfolding stack_op_singles pick_or_roll require push pop top remove to_clamped_i32
pick_roll_effects a x n s h l d e =
    let (lo, hi) = item_at s n x h e in (ground (arith, d, e), ground (arith, d, e))
