-- ===== src/Block/Merkle/Total.antt =====
-- merkle.rs: the loop ends with one hash in its rounds, and no assertion fails.
use bitmigo.Prelude.{
  ℕ, zero, suc, ◌+◌, ◌*◌, ◌%◌, ◌^◌, ◌≤◌, ◌<◌, ◌≡◌, refl, Bool, true, false, List, [], ◌∷◌, leb,
  ◌==◌, length, length-append, arith, Bool-cases, inl, inr,
}
use bitmigo.Script.Error.{ok, check, Safe, Safe-bind, Safe-then, Safe-if, NoPanic}
use bitmigo.Script.Num.{Bytes}
use bitmigo.Block.Merkle.{last_hash, pad, parents_of, level_above, climb_levels, merkle_root}

last_hash-NoPanic : (level : List Bytes) → 0 < length level → NoPanic (last_hash level)
unfolding last_hash
last_hash-NoPanic [] h = absurd (omega arith)
last_hash-NoPanic (x ∷ []) h = tt
last_hash-NoPanic (x ∷ y ∷ rest) h = last_hash-NoPanic (y ∷ rest) (omega arith)

abbrev Padded : List Bytes → List Bytes → Type 0
Padded level padded = (length padded % 2 ≡ 0) × (length padded ≤ length level + 1)

pad-Padded : (level : List Bytes) → Safe (Padded level) (pad level)
unfolding pad
pad-Padded level =
    Safe-if (Padded level) (length level % 2 == 1) _ (ok level)
      (λ e.
        Safe-then (Padded level) (last_hash level) _ (last_hash-NoPanic level (ground (arith, e)))
          λ last. (
            omega (arith, length-append level (last ∷ []), odd (length level) e),
            omega (arith, length-append level (last ∷ [])),
          ))
      λ e. (ground (arith, e), omega arith)
  where
    odd : (n : ℕ) → (n % 2 == 1) ≡ true → n % 2 ≡ 1
    odd n e = ground (arith, e)

length-parents_of :
    (sha256d : Bytes → Bytes) (level : List Bytes)
    → length level % 2 ≡ 0
    → length (parents_of sha256d level) * 2 ≡ length level
unfolding parents_of
length-parents_of sha256d [] h = refl
length-parents_of sha256d (x ∷ []) h = absurd (omega (arith, h))
length-parents_of sha256d (x ∷ y ∷ rest) h =
    omega (arith, length-parents_of sha256d rest (omega (arith, h)))

level_above-Safe :
    (sha256d : Bytes → Bytes) (level : List Bytes)
    → Safe (λ parents. length parents * 2 ≤ length level + 1) (level_above sha256d level)
unfolding level_above
level_above-Safe sha256d level =
    let half = λ (parents : List Bytes). length parents * 2 ≤ length level + 1 in
    Safe-bind (Padded level) half (pad level) _ (pad-Padded level) λ padded h.
      let halved : length (parents_of sha256d padded) * 2 ≡ length padded =
        length-parents_of sha256d padded h.0 in
      Safe-then half (check (length padded % 2 == 0)) _ (ground (arith, h.0)) λ _.
        Safe-then half (check (length (parents_of sha256d padded) * 2 == length padded)) _
          (ground (arith, halved)) λ _. omega (arith, halved, h.1)

climb_levels-Safe :
    (sha256d : Bytes → Bytes) (rounds : ℕ) (level : List Bytes) (mutated : Bool)
    → length level ≤ 2 ^ rounds
    → Safe (λ p. length p.0 ≤ 1) (climb_levels sha256d rounds level mutated)
unfolding climb_levels
climb_levels-Safe sha256d zero level mutated h = ground (arith, h)
climb_levels-Safe sha256d (suc rounds) level mutated h =
    Safe-if _ (leb (length level) 1) (ok (level, mutated)) _ (λ e. ground (arith, e))
      λ e.
        Safe-bind _ _ (level_above sha256d level) _ (level_above-Safe sha256d level)
          λ parents k. climb_levels-Safe sha256d rounds parents _ (omega (arith, h, k))

-- A block of 2^33 leaves at most has a merkle root: the rounds are enough to reach one hash, and no
-- assertion fails; without two leaves it is not mutated.
pub merkle_root-Safe :
    (sha256d : Bytes → Bytes) (leaves : List Bytes)
    → length leaves ≤ 2 ^ 33
    → Safe (λ r. length leaves ≤ 1 → r.mutated ≡ false) (merkle_root sha256d leaves)
unfolding merkle_root climb_levels
merkle_root-Safe sha256d leaves h = elim (Bool-cases (leb (length leaves) 1)) [
  | inl e ↦ ground (arith, e)
  | inr e ↦
      Safe-bind _ _ (climb_levels sha256d 33 leaves false) _
        (climb_levels-Safe sha256d 33 leaves false h) λ p k. ground (arith, e)
]
