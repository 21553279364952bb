-- ===== src/Block/Merkle.antt =====
-- crates/consensus/src/block/merkle.rs: the merkle root of a block, with its mutation detector. The
-- double SHA-256 is a parameter.
pub mod Total
pub mod Mutation
use bitmigo.Prelude.{
  ℕ, zero, suc, ◌+◌, ◌*◌, ◌%◌, ◌≡◌, Bool, true, false, not, ◌&&◌, ◌||◌, List, [], ◌∷◌, ◌++◌, ltb,
  leb, ◌==◌, if◌then◌else◌, length, replicate,
}
use bitmigo.Script.Error.{Outcome, ok, panic, ◌>>=◌, ◌>>◌, check}
use bitmigo.Script.Num.{Bytes}
use bitmigo.Script.StackOps.{bytes_eq}

abbrev pub merkle_levels_max : ℕ
merkle_levels_max = 32

pub record MerkleRoot : Type 0 where
  pub root : Bytes
  pub mutated : Bool

-- Whether two siblings are equal; an odd tail has none.
unfoldable pub has_twins : List Bytes → Bool
has_twins [] = false
has_twins (left ∷ []) = false
has_twins (left ∷ right ∷ rest) = bytes_eq left right || has_twins rest

-- `level.last()`
unfoldable pub last_hash : List Bytes → Outcome Bytes
last_hash [] = panic
last_hash (x ∷ []) = ok x
last_hash (x ∷ y ∷ rest) = last_hash (y ∷ rest)

-- An odd level has its last hash doubled.
unfoldable pub pad : List Bytes → Outcome (List Bytes)
pad level =
    if length level % 2 == 1
    then (do last ← last_hash level; ok (level ++ (last ∷ [])))
    else ok level

unfoldable pub parents_of : (Bytes → Bytes) → List Bytes → List Bytes
parents_of sha256d [] = []
parents_of sha256d (left ∷ []) = []
parents_of sha256d (left ∷ right ∷ rest) = sha256d (left ++ right) ∷ parents_of sha256d rest

-- One round: the level above.
unfoldable pub level_above : (Bytes → Bytes) → List Bytes → Outcome (List Bytes)
level_above sha256d level = do
  padded ← pad level
  check (length padded % 2 == 0)
  let parents = parents_of sha256d padded
  check (length parents * 2 == length padded)
  ok parents

-- The loop, with its rounds to go, and its last assertion.
unfoldable pub climb_levels : (Bytes → Bytes) → ℕ → List Bytes → Bool → Outcome (List Bytes × Bool)
climb_levels sha256d zero level mutated = do check (leb (length level) 1); ok (level, mutated)
climb_levels sha256d (suc rounds) level mutated =
    if leb (length level) 1 then ok (level, mutated) else do
      parents ← level_above sha256d level
      climb_levels sha256d rounds parents (mutated || has_twins level)

-- `level.first().copied().unwrap_or([0u8; 32])`
abbrev pub first_or_zero : List Bytes → Bytes
first_or_zero [] = replicate 32 0
first_or_zero (x ∷ rest) = x

unfoldable pub merkle_root : (Bytes → Bytes) → List Bytes → Outcome MerkleRoot
merkle_root sha256d leaves = do
  (level, mutated) ← climb_levels sha256d (suc merkle_levels_max) leaves false
  check (ltb 1 (length leaves) || not mutated)
  ok (record { root = first_or_zero level; mutated = mutated })
