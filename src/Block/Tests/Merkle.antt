-- ===== src/Block/Tests/Merkle.antt =====
-- The properties of merkle.rs at concrete inputs. The hash keeps its input.
use bitmigo.Prelude.{◌≤◌, ◌≡◌, refl, true, false, List, [], ◌∷◌, ◌++◌, length, arith}
use bitmigo.Script.Error.{ok, ◌>>=◌, Safe}
use bitmigo.Script.Num.{Bytes}
use bitmigo.Block.Merkle.{merkle_root}
use bitmigo.Block.Merkle.Total.{merkle_root-Safe}
use bitmigo.Block.Merkle.Mutation.{merkle_root-repeated}

abbrev same : Bytes → Bytes
same input = input

abbrev two_leaves : List Bytes
two_leaves = (1 ∷ []) ∷ (2 ∷ []) ∷ []

merkle_root-Safe_example :
    Safe (λ r. length two_leaves ≤ 1 → r.mutated ≡ false) (merkle_root same two_leaves)
merkle_root-Safe_example = merkle_root-Safe same two_leaves (omega arith)

merkle_root-repeated_example :
    merkle_root same (two_leaves ++ ((3 ∷ []) ∷ (3 ∷ []) ∷ []))
    ≡ (do r ← merkle_root same (two_leaves ++ ((3 ∷ []) ∷ [])); ok (record r { mutated = true }))
merkle_root-repeated_example = merkle_root-repeated same two_leaves (3 ∷ []) refl (omega arith)
