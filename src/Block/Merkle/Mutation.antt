-- ===== src/Block/Merkle/Mutation.antt =====
-- merkle.rs and CVE-2012-2459: a repeated tail keeps the root and is found out.
use bitmigo.Prelude.{
  ℕ, zero, suc, ◌%◌, ◌<◌, ◌≡◌, refl, sym, ap, ◌∙◌, Bool, true, false, not, ◌||◌, List, [], ◌∷◌,
  ◌++◌, ltb, leb, if◌then◌else◌, length, length-append, append_assoc, arith,
}
use bitmigo.Script.Error.{Outcome, ok, err, panic, ◌>>=◌, ◌>>◌, check}
use bitmigo.Script.Num.{Bytes}
use bitmigo.Script.StackOps.{bytes_eq}
use bitmigo.Block.Merkle.{
  MerkleRoot, has_twins, last_hash, pad, level_above, climb_levels, first_or_zero, merkle_root,
}

bytes_eq_refl : (x : Bytes) → bytes_eq x x ≡ true
unfolding bytes_eq
bytes_eq_refl [] = refl
bytes_eq_refl (b ∷ bs) = ground (arith, bytes_eq_refl bs)

has_twins-tail :
    (ys : List Bytes) (x : Bytes) → length ys % 2 ≡ 0 → has_twins (ys ++ (x ∷ x ∷ [])) ≡ true
unfolding has_twins
has_twins-tail [] x h = ground (arith, bytes_eq_refl x)
has_twins-tail (y ∷ []) x h = absurd (omega (arith, h))
has_twins-tail (y ∷ z ∷ ys) x h = ground (arith, has_twins-tail ys x (omega (arith, h)))

last_hash-append : (ys : List Bytes) (x : Bytes) → last_hash (ys ++ (x ∷ [])) ≡ ok x
unfolding last_hash
last_hash-append [] x = refl
last_hash-append (y ∷ []) x = refl
last_hash-append (y ∷ z ∷ ys) x = last_hash-append (z ∷ ys) x

module _ (sha256d : Bytes → Bytes) (ys : List Bytes) (x : Bytes) (even : length ys % 2 ≡ 0) where
  pad-odd : pad (ys ++ (x ∷ [])) ≡ ok (ys ++ (x ∷ x ∷ []))
  unfolding pad
  pad-odd = ground (
    arith,
    even,
    length-append ys (x ∷ []),
    last_hash-append ys x,
    append_assoc ys (x ∷ []) (x ∷ []),
  )

  pad-even : pad (ys ++ (x ∷ x ∷ [])) ≡ ok (ys ++ (x ∷ x ∷ []))
  unfolding pad
  pad-even = ground (arith, even, length-append ys (x ∷ x ∷ []))

  same_parents : level_above sha256d (ys ++ (x ∷ x ∷ [])) ≡ level_above sha256d (ys ++ (x ∷ []))
  unfolding level_above
  same_parents = rw (pad-even, pad-odd)

-- The detector's answer does not change the levels.
abbrev marked : Outcome (List Bytes × Bool) → Outcome (List Bytes × Bool)
marked o = do (level, mutated) ← o; ok (level, true)

climb_levels-marked :
    (sha256d : Bytes → Bytes) (rounds : ℕ) (level : List Bytes) (mutated : Bool)
    → climb_levels sha256d rounds level true ≡ marked (climb_levels sha256d rounds level mutated)
unfolding climb_levels
climb_levels-marked sha256d zero level mutated = ground arith
climb_levels-marked sha256d (suc rounds) level mutated =
    go (leb (length level) 1) (level_above sha256d level)
      λ p. climb_levels-marked sha256d rounds p (mutated || has_twins level)
  where
    go :
        (small : Bool) (above : Outcome (List Bytes))
        → ((p : List Bytes)
            → climb_levels sha256d rounds p true
              ≡ marked (climb_levels sha256d rounds p (mutated || has_twins level)))
        → (if small then ok (level, true) else (above >>= λ p. climb_levels sha256d rounds p true))
          ≡ marked (
              if small
              then ok (level, mutated)
              else (above >>= λ p. climb_levels sha256d rounds p (mutated || has_twins level)))
    go true above ih = refl
    go false (ok p) ih = ih p
    go false (err e) ih = refl
    go false panic ih = refl

-- What `merkle_root` does after the loop.
abbrev finish_root : ℕ → Outcome (List Bytes × Bool) → Outcome MerkleRoot
finish_root leaf_count o = do
  (level, mutated) ← o
  check (ltb 1 leaf_count || not mutated)
  ok (record { root = first_or_zero level; mutated = mutated })

abbrev mark : Outcome MerkleRoot → Outcome MerkleRoot
mark o = do r ← o; ok (record r { mutated = true })

finish_root-marked :
    (m n : ℕ) (o : Outcome (List Bytes × Bool))
    → 1 < m
    → 1 < n
    → finish_root m (marked o) ≡ mark (finish_root n o)
finish_root-marked m n (ok p) h k = ground (arith, h, k)
finish_root-marked m n (err e) h k = refl
finish_root-marked m n panic h k = refl

climb_levels-on :
    (sha256d : Bytes → Bytes) (rounds : ℕ) (level : List Bytes)
    → 1 < length level
    → climb_levels sha256d (suc rounds) level false
      ≡ (level_above sha256d level >>= λ p. climb_levels sha256d rounds p (has_twins level))
unfolding climb_levels
climb_levels-on sha256d rounds level h = ground (arith, h)

marked-on :
    (sha256d : Bytes → Bytes) (rounds : ℕ) (above : Outcome (List Bytes)) (mutated : Bool)
    → (above >>= λ p. climb_levels sha256d rounds p true)
      ≡ marked (above >>= λ p. climb_levels sha256d rounds p mutated)
marked-on sha256d rounds (ok p) mutated = climb_levels-marked sha256d rounds p mutated
marked-on sha256d rounds (err e) mutated = refl
marked-on sha256d rounds panic mutated = refl

-- From an odd level's loop to the loop of the level with its tail repeated.
climb_levels-repeated :
    (sha256d : Bytes → Bytes) (rounds : ℕ) (ys : List Bytes) (x : Bytes)
    → length ys % 2 ≡ 0
    → 0 < length ys
    → climb_levels sha256d (suc rounds) (ys ++ (x ∷ x ∷ [])) false
      ≡ marked (climb_levels sha256d (suc rounds) (ys ++ (x ∷ [])) false)
climb_levels-repeated sha256d rounds ys x even h =
    let once : List Bytes = ys ++ (x ∷ []) in
    let twice : List Bytes = ys ++ (x ∷ x ∷ []) in
    climb_levels-on sha256d rounds twice (omega (arith, length-append ys (x ∷ x ∷ []), h))
    ∙ ap (λ (b : Bool). level_above sha256d twice >>= λ p. climb_levels sha256d rounds p b)
        (has_twins-tail ys x even)
    ∙ ap (λ (o : Outcome (List Bytes)). o >>= λ p. climb_levels sha256d rounds p true)
        (same_parents sha256d ys x even)
    ∙ marked-on sha256d rounds (level_above sha256d once) (has_twins once)
    ∙ ap marked
        (sym (climb_levels-on sha256d rounds once (omega (arith, length-append ys (x ∷ []), h))))

-- The leaves of a block of odd length, three at least, with the last one repeated have the same root
-- as without it, as CVE-2012-2459 has it, and are reported as mutated.
pub merkle_root-repeated :
    (sha256d : Bytes → Bytes) (ys : List Bytes) (x : Bytes)
    → length ys % 2 ≡ 0
    → 0 < length ys
    → merkle_root sha256d (ys ++ (x ∷ x ∷ []))
      ≡ (do r ← merkle_root sha256d (ys ++ (x ∷ [])); ok (record r { mutated = true }))
unfolding merkle_root
merkle_root-repeated sha256d ys x even h =
    ap (finish_root (length (ys ++ (x ∷ x ∷ [])))) (climb_levels-repeated sha256d 32 ys x even h)
    ∙ finish_root-marked (length (ys ++ (x ∷ x ∷ []))) (length (ys ++ (x ∷ [])))
        (climb_levels sha256d 33 (ys ++ (x ∷ [])) false)
        (omega (arith, length-append ys (x ∷ x ∷ []), h))
        (omega (arith, length-append ys (x ∷ []), h))
