-- ===== src/Script/Taproot/Order.antt =====
-- The two children of a node are hashed in one order, whichever side they come from (taproot.rs,
-- `taproot_merkle_root`).
use bitmigo.Prelude.{◌≡◌, refl, true, false, [], ◌∷◌, arith}
use bitmigo.Script.Num.{Bytes}
use bitmigo.Script.Taproot.{Primitives, lex_lt, parent}

lex_lt-asym : (a b : Bytes) → lex_lt a b ≡ true → lex_lt b a ≡ false
unfolding lex_lt
lex_lt-asym [] [] h = refl
lex_lt-asym [] (y ∷ ys) h = refl
lex_lt-asym (x ∷ xs) [] h = absurd (ground (arith, h))
lex_lt-asym (x ∷ xs) (y ∷ ys) h = ground (arith, h, lex_lt-asym xs ys)

lex_lt-equal : (a b : Bytes) → lex_lt a b ≡ false → lex_lt b a ≡ false → a ≡ b
unfolding lex_lt
lex_lt-equal [] [] h k = refl
lex_lt-equal [] (y ∷ ys) h k = absurd (ground (arith, h))
lex_lt-equal (x ∷ xs) [] h k = absurd (ground (arith, k))
lex_lt-equal (x ∷ xs) (y ∷ ys) h k = ground (arith, h, k, lex_lt-equal xs ys)

-- A node and its sibling have the same parent as the sibling and the node.
pub parent_comm :
    (p : Primitives) (node sibling : Bytes) → parent p node sibling ≡ parent p sibling node
unfolding parent
parent_comm p node sibling = ground (arith, lex_lt-asym node sibling, lex_lt-equal node sibling)
