-- ===== src/Script/Numeric/Safety.antt =====
-- The numeric and hash opcodes keep the stack well formed and do not panic.
use bitmigo.Prelude.{ℕ, ◌≤◌, ◌^◌, ◌≡◌, true, not, [], ◌∷◌, length, arith, ◌==◌}
use bitmigo.Prelude.Int.{pos}
use bitmigo.Script.Error.{
  numequalverify, Safe-mono, fail_if-Safe, ok, Safe, Safe-bind, Safe-if, fail_if, ScriptError,
  ◌>>=◌, ◌>>◌,
}
use bitmigo.Script.Num.{Bytes, ScriptNum, decode, encode, num_one, from_usize, cast_to_bool}
use bitmigo.Script.Num.Value.{IsBytes}
use bitmigo.Script.Num.Bounds.{
  Within, decode-Safe4, encode-Safe, num_add-Safe, num_sub-Safe, num_neg-Safe, num_abs-Safe,
  IsEncoded,
}
use bitmigo.Script.Stack.{Stack, require, push, pop, top}
use bitmigo.Script.Stack.Safety.{
  IsItem, IsStack, IsPopped, require-Safe, top-Safe, pop-Safe, push_bool-Safe, encode-push-Safe,
  IsPushed, push_length-Safe, IsEncoded-IsItem,
}
use bitmigo.Script.Opcode
use bitmigo.Script.Opcode.{between}
use bitmigo.Script.Machine.{Hashes}
use bitmigo.Script.Numeric.{
  is_unary, is_binary, unary_result, numeric_unary, binary_result, numeric_binary, within, size,
  digest_of, hash,
}

-- An operand of four bytes; a result of two such.
abbrev IsOperand : ScriptNum → Type 0
IsOperand = Within (2 ^ 31)

unary-Safe :
    (opcode : ℕ) (n : ScriptNum)
    → is_unary opcode ≡ true
    → IsOperand n
    → Safe (λ _. Unit) (unary_result opcode n)
unfolding unary_result
unary-Safe opcode n o h = ground (
  arith,
  num_add-Safe (2 ^ 31) n num_one (omega arith) h (omega arith),
  num_sub-Safe (2 ^ 31) n num_one (omega arith) h (omega arith),
  num_neg-Safe (2 ^ 31) n (omega arith) h,
  num_abs-Safe (2 ^ 31) n (omega arith) h,
)

-- The operand at a depth.
IsOperand-Safe :
    (depth : ℕ) (s : Stack)
    → IsStack s
    → 1 ≤ depth
    → depth ≤ length s
    → Safe IsOperand (top depth s >>= λ item. decode item 4)
IsOperand-Safe depth s h lo hi =
    Safe-bind IsItem IsOperand _ _ (top-Safe depth s h lo hi)
      λ item hi'. decode-Safe4 item hi'.item_bytes

pub numeric_unary-Safe :
    (opcode : ℕ) (s : Stack)
    → is_unary opcode ≡ true
    → IsStack s
    → Safe IsStack (numeric_unary opcode s)
unfolding numeric_unary
numeric_unary-Safe opcode s o h = Safe-bind _ IsStack (require 1 s) _ (require-Safe 1 s) λ _ l.
    Safe-bind _ IsStack (top 1 s) _ (top-Safe 1 s h (omega arith) l) λ a ha.
      Safe-bind _ IsStack (decode a 4) _ (decode-Safe4 a ha.item_bytes) λ n hn.
        Safe-bind _ IsStack _ _ (unary-Safe opcode n o hn) λ r _.
          Safe-bind (IsPopped s) IsStack (pop s) _ (pop-Safe s h l)
            λ p hp. encode-push-Safe r p.1 hp.1

binary-Safe :
    (opcode : ℕ) (a b : ScriptNum)
    → is_binary opcode ≡ true
    → IsOperand a
    → IsOperand b
    → Safe (λ _. Unit) (binary_result opcode a b)
unfolding binary_result
binary-Safe opcode a b o ha hb = ground (
  arith,
  num_add-Safe (2 ^ 31) a b (omega arith) ha hb,
  num_sub-Safe (2 ^ 31) a b (omega arith) ha hb,
)

-- `OP_NUMEQUALVERIFY` drops its verdict.
verdict-Safe :
    (s : Stack) (e : ScriptError)
    → IsStack s
    → 1 ≤ length s
    → Safe IsStack
        (do verdict ← top 1 s; fail_if (not (cast_to_bool verdict)) e; (_, t) ← pop s; ok t)
verdict-Safe s e h l = Safe-bind IsItem IsStack _ _ (top-Safe 1 s h (omega arith) l) λ v _.
    Safe-bind _ IsStack (fail_if (not (cast_to_bool v)) e) _ (fail_if-Safe _ e)
      λ _ _. Safe-bind (IsPopped s) IsStack _ _ (pop-Safe s h l) λ p hp. hp.1

pub numeric_binary-Safe :
    (opcode : ℕ) (s : Stack)
    → is_binary opcode ≡ true
    → IsStack s
    → Safe IsStack (numeric_binary opcode s)
unfolding numeric_binary
numeric_binary-Safe opcode s o h = Safe-bind _ IsStack (require 2 s) _ (require-Safe 2 s) λ _ l.
    Safe-bind _ IsStack (top 2 s) _ (top-Safe 2 s h (omega arith) l) λ a ha.
      Safe-bind _ IsStack (decode a 4) _ (decode-Safe4 a ha.item_bytes) λ x1 h1.
        Safe-bind _ IsStack (top 1 s) _ (top-Safe 1 s h (omega arith) (omega arith)) λ b hb.
          Safe-bind _ IsStack (decode b 4) _ (decode-Safe4 b hb.item_bytes) λ x2 h2.
            Safe-bind _ IsStack _ _ (binary-Safe opcode x1 x2 o h1 h2) λ r _.
              Safe-bind (IsPopped s) IsStack (pop s) _ (pop-Safe s h (omega arith)) λ p hp.
                Safe-bind (IsPopped p.1) IsStack (pop p.1) _ (pop-Safe p.1 hp.1 (omega arith))
                  λ q hq. Safe-bind IsEncoded IsStack (encode r) _ (encode-Safe r) λ item hi.
                    Safe-bind (IsPushed q.1) IsStack (push item q.1) _
                      (push_length-Safe item q.1 (IsEncoded-IsItem item hi) hq.1)
                      λ t ht.
                        Safe-if IsStack (opcode == Opcode.op_numequalverify) _ (ok t)
                          (λ _. verdict-Safe t numequalverify ht.0 (omega arith)) λ _. ht.0

pub within-Safe : (s : Stack) → IsStack s → Safe IsStack (within s)
unfolding within
within-Safe s h = Safe-bind _ IsStack (require 3 s) _ (require-Safe 3 s) λ _ l.
    Safe-bind _ IsStack (top 3 s) _ (top-Safe 3 s h (omega arith) l) λ a ha.
      Safe-bind _ IsStack (decode a 4) _ (decode-Safe4 a ha.item_bytes) λ _ _.
        Safe-bind _ IsStack (top 2 s) _ (top-Safe 2 s h (omega arith) (omega arith)) λ b hb.
          Safe-bind _ IsStack (decode b 4) _ (decode-Safe4 b hb.item_bytes) λ _ _.
            Safe-bind _ IsStack (top 1 s) _ (top-Safe 1 s h (omega arith) (omega arith)) λ c hc.
              Safe-bind _ IsStack (decode c 4) _ (decode-Safe4 c hc.item_bytes) λ _ _.
                Safe-bind (IsPopped s) IsStack (pop s) _ (pop-Safe s h (omega arith)) λ p hp.
                  Safe-bind (IsPopped p.1) IsStack (pop p.1) _ (pop-Safe p.1 hp.1 (omega arith))
                    λ q hq.
                      Safe-bind (IsPopped q.1) IsStack (pop q.1) _ (pop-Safe q.1 hq.1 (omega arith))
                        λ t ht. Safe-mono _ IsStack _ (λ u hu. hu.0) (push_bool-Safe _ t.1 ht.1)

pub size-Safe : (s : Stack) → IsStack s → Safe IsStack (size s)
unfolding size from_usize
size-Safe (a ∷ s) h =
    unfold require top in ground (arith, encode-push-Safe (pos (length a)) (a ∷ s) h)
size-Safe [] h = unfold require in ground arith

-- What the interpreter relies on: each digest is 20 or 32 bytes.
pub record HashesSafe (h : Hashes) : Type 0 where
  pub ripemd160_item :
      (input : Bytes) → IsBytes (h.ripemd160 input) × (length (h.ripemd160 input) ≡ 20)
  pub sha1_item : (input : Bytes) → IsBytes (h.sha1 input) × (length (h.sha1 input) ≡ 20)
  pub sha256_item : (input : Bytes) → IsBytes (h.sha256 input) × (length (h.sha256 input) ≡ 32)
  pub hash160_item : (input : Bytes) → IsBytes (h.hash160 input) × (length (h.hash160 input) ≡ 20)
  pub hash256_item : (input : Bytes) → IsBytes (h.hash256 input) × (length (h.hash256 input) ≡ 32)

pub hash-Safe :
    (h : Hashes) (opcode : ℕ) (s : Stack)
    → HashesSafe h
    → between Opcode.op_ripemd160 Opcode.op_hash256 opcode ≡ true
    → IsStack s
    → Safe IsStack (hash h opcode s)
unfolding hash digest_of require pop push
hash-Safe h opcode [] hs o k = ground arith
hash-Safe h opcode (a ∷ s) hs o k = ground (
  arith,
  hs.ripemd160_item a,
  hs.sha1_item a,
  hs.sha256_item a,
  hs.hash160_item a,
  hs.hash256_item a,
)
