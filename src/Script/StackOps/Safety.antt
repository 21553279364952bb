-- ===== src/Script/StackOps/Safety.antt =====
-- The stack opcodes keep the stack well formed and do not panic.
use bitmigo.Prelude.{
  ◌==◌, ℕ, ◌+◌, ◌≤◌, ◌^◌, ◌<◌, ◌≡◌, Bool, true, false, ◌∷◌, length, arith, leb, if◌then◌else◌,
}
use bitmigo.Script.Error.{ScriptError, ok, Safe, Safe-bind, fail_if}
use bitmigo.Script.Num.{Bytes}
use bitmigo.Script.Stack.{Stack, require, push, push_bool, pop, top, swap, remove, insert}
use bitmigo.Script.Stack.Safety.{IsItem, IsStack}
use bitmigo.Script.StackOps.{
  drop2, dup2, dup3, over2, rot2, swap2, if_dup, depth, drop1, dup, nip, over, rot, swap1, tuck,
  pick_or_roll, depth_from, equal, stack_op_singles,
}
use bitmigo.Script.Opcode.{between}
use bitmigo.Script.Num.{from_usize, decode, to_clamped_i32}
use bitmigo.Script.Opcode
use bitmigo.Prelude.Int.{ℤ, pos, negsuc}
use bitmigo.Script.Num.Bounds.{decode-Safe4}
use bitmigo.Script.Stack.Safety.{
  top-Safe, remove-Safe, push-Safe, encode-push-Safe, require-Safe, pop-Safe, IsSplit,
}

pub drop2-Safe : (s : Stack) → IsStack s → Safe IsStack (drop2 s)
unfolding drop2 require pop
drop2-Safe (a ∷ b ∷ s) h = ground arith
drop2-Safe s h = ground arith

pub dup2-Safe : (s : Stack) → IsStack s → Safe IsStack (dup2 s)
unfolding dup2 require top push
dup2-Safe (a ∷ b ∷ s) h = ground arith
dup2-Safe s h = ground arith

pub dup3-Safe : (s : Stack) → IsStack s → Safe IsStack (dup3 s)
unfolding dup3 require top push
dup3-Safe (a ∷ b ∷ c ∷ s) h = ground arith
dup3-Safe s h = ground arith

pub over2-Safe : (s : Stack) → IsStack s → Safe IsStack (over2 s)
unfolding over2 require top push
over2-Safe (a ∷ b ∷ c ∷ d ∷ s) h = ground arith
over2-Safe s h = ground arith

pub rot2-Safe : (s : Stack) → IsStack s → Safe IsStack (rot2 s)
unfolding rot2 require remove push
rot2-Safe (a ∷ b ∷ c ∷ d ∷ e ∷ f ∷ s) h = ground arith
rot2-Safe s h = ground arith

pub swap2-Safe : (s : Stack) → IsStack s → Safe IsStack (swap2 s)
unfolding swap2 require swap
swap2-Safe (a ∷ b ∷ c ∷ d ∷ s) h = ground arith
swap2-Safe s h = ground arith

if_dup-Safe : (s : Stack) → IsStack s → Safe IsStack (if_dup s)
unfolding if_dup require top push
if_dup-Safe (a ∷ s) h = ground arith
if_dup-Safe s h = ground arith

drop1-Safe : (s : Stack) → IsStack s → Safe IsStack (drop1 s)
unfolding drop1 require pop
drop1-Safe (a ∷ s) h = ground arith
drop1-Safe s h = ground arith

dup-Safe : (s : Stack) → IsStack s → Safe IsStack (dup s)
unfolding dup require top push
dup-Safe (a ∷ s) h = ground arith
dup-Safe s h = ground arith

nip-Safe : (s : Stack) → IsStack s → Safe IsStack (nip s)
unfolding nip require remove
nip-Safe (a ∷ b ∷ s) h = ground arith
nip-Safe s h = ground arith

over-Safe : (s : Stack) → IsStack s → Safe IsStack (over s)
unfolding over require top push
over-Safe (a ∷ b ∷ s) h = ground arith
over-Safe s h = ground arith

rot-Safe : (s : Stack) → IsStack s → Safe IsStack (rot s)
unfolding rot require swap
rot-Safe (a ∷ b ∷ c ∷ s) h = ground arith
rot-Safe s h = ground arith

swap1-Safe : (s : Stack) → IsStack s → Safe IsStack (swap1 s)
unfolding swap1 require swap
swap1-Safe (a ∷ b ∷ s) h = ground arith
swap1-Safe s h = ground arith

tuck-Safe : (s : Stack) → IsStack s → Safe IsStack (tuck s)
unfolding tuck require top insert
tuck-Safe (a ∷ b ∷ s) h = ground arith
tuck-Safe s h = ground arith

depth-Safe : (s : Stack) → length s ≤ 2 ^ 32 → IsStack s → Safe IsStack (depth s)
unfolding depth from_usize
depth-Safe s l h = ground (arith, encode-push-Safe (pos (length s)) s h)

depth_from-Safe : (n : ℤ) → Safe (λ _. Unit) (depth_from n)
depth_from-Safe (pos n) = tt
depth_from-Safe (negsuc n) = tt

-- The item at a depth, and the stack without it under `OP_ROLL`.
picked-Safe :
    (b : Bool) (n : ℕ) (item : Bytes) (s : Stack)
    → IsItem item
    → IsStack s
    → 1 ≤ n
    → n ≤ length s
    → Safe IsSplit (if b then remove n s else ok (item, s))
picked-Safe true n item s hi h lo le = remove-Safe n s h lo le
picked-Safe false n item s hi h lo le = (hi, h)

fail_if-leb : (a b : ℕ) (e : ScriptError) → Safe (λ _. b < a) (fail_if (leb a b) e)
fail_if-leb a b e = ground arith

pick_or_roll-Safe : (opcode : ℕ) (s : Stack) → IsStack s → Safe IsStack (pick_or_roll opcode s)
unfolding pick_or_roll
pick_or_roll-Safe opcode s h = Safe-bind _ IsStack (require 2 s) _ (require-Safe 2 s) λ _ l.
    Safe-bind _ IsStack (top 1 s) _ (top-Safe 1 s h (omega arith) (omega arith)) λ a ha.
      Safe-bind _ IsStack (decode a 4) _ (decode-Safe4 a ha.item_bytes) λ d _.
        Safe-bind _ IsStack (pop s) _ (pop-Safe s h (omega arith)) λ p hp.
          Safe-bind _ IsStack (depth_from (to_clamped_i32 d)) _ (depth_from-Safe _) λ n _.
            Safe-bind _ IsStack (fail_if (leb (length p.1) n) _) _ (fail_if-leb _ n _) λ _ small.
              Safe-bind _ IsStack (top (n + 1) p.1) _
                (top-Safe (n + 1) p.1 hp.1 (omega arith) (omega arith))
                λ item hi.
                  Safe-bind IsSplit IsStack
                    (if opcode == Opcode.op_roll then remove (n + 1) p.1 else ok (item, p.1)) _
                    (picked-Safe (opcode == Opcode.op_roll) (n + 1) item p.1 hi hp.1 (omega arith)
                      (omega arith))
                    λ t ht. push-Safe item t.1 hi ht.1

pub equal-Safe : (opcode : ℕ) (s : Stack) → IsStack s → Safe IsStack (equal opcode s)
unfolding equal require pop push_bool
equal-Safe opcode (a ∷ b ∷ s) h = ground arith
equal-Safe opcode s h = ground arith

pub singles-Safe :
    (opcode : ℕ) (s : Stack)
    → length s ≤ 2 ^ 32
    → IsStack s
    → between Opcode.op_ifdup Opcode.op_tuck opcode ≡ true
    → Safe IsStack (stack_op_singles opcode s)
unfolding stack_op_singles
singles-Safe opcode s l h b = ground (
  arith,
  if_dup-Safe s h,
  depth-Safe s l h,
  drop1-Safe s h,
  dup-Safe s h,
  nip-Safe s h,
  over-Safe s h,
  pick_or_roll-Safe opcode s h,
  rot-Safe s h,
  swap1-Safe s h,
  tuck-Safe s h,
)
