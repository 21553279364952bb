-- ===== src/Script/Taproot/Commitment.antt =====
-- The taproot commitment of taproot.rs, from the control block's bytes on, against BIP341's tree.
use bitmigo.Prelude.{
  ℕ, suc, ◌+◌, ◌-◌, ◌*◌, ◌/◌, ◌%◌, ◌≤◌, ◌<◌, ◌≡◌, ◌↔◌, refl, sym, ap, ◌∙◌, Bool, true, List, [],
  ◌∷◌, ◌++◌, ltb, ◌==◌, ◌&&◌, length, take, drop, arith, length-append, take-append, drop-append,
  Bool-cases, inl, inr,
}
use mathlib.Core.Path.{subst}
use bitmigo.Script.Error.{Outcome, ok, ◌>>=◌, Returns}
use bitmigo.Script.Num.{Bytes}
use bitmigo.Script.Taproot.{
  Primitives, ControlBlock, split_control, parse_control, path_len, lex_lt, parent, climb,
  taproot_merkle_root, tap_tweak, verify_taproot_commitment,
}
use bitmigo.Script.Taproot.Control.{parse_control-split}

-- The order of byte strings: where they first differ decides, and a prefix comes before.
pub data Before : Bytes → Bytes → Type 0 where
  shorter : {y : ℕ} {ys : Bytes} → Before [] (y ∷ ys)
  smaller : {x y : ℕ} {xs ys : Bytes} → x < y → Before (x ∷ xs) (y ∷ ys)
  same : {x y : ℕ} {xs ys : Bytes} → x ≡ y → Before xs ys → Before (x ∷ xs) (y ∷ ys)

lex_lt-Before : (xs ys : Bytes) → lex_lt xs ys ≡ true → Before xs ys
unfolding lex_lt
lex_lt-Before [] [] h = absurd (ground (arith, h))
lex_lt-Before [] (y ∷ ys) h = shorter
lex_lt-Before (x ∷ xs) [] h = absurd (ground (arith, h))
lex_lt-Before (x ∷ xs) (y ∷ ys) h = elim (Bool-cases (ltb x y)) [
  | inl t ↦ smaller (ground (arith, t))
  | inr f ↦ same (ground (arith, f, h)) (lex_lt-Before xs ys (ground (arith, f, h)))
]

Before-lex_lt : (xs ys : Bytes) → Before xs ys → lex_lt xs ys ≡ true
unfolding lex_lt
Before-lex_lt [] [] b = elim b [ ]
Before-lex_lt [] (y ∷ ys) shorter = refl
Before-lex_lt (x ∷ xs) [] b = elim b [ ]
Before-lex_lt (x ∷ xs) (y ∷ ys) (smaller h) = ground arith
Before-lex_lt (x ∷ xs) (y ∷ ys) (same e h) = ground (arith, e, Before-lex_lt xs ys h)

-- The root of BIP341's tree from a node and its siblings on: each pair is hashed, the lesser first.
pub data Root (p : Primitives) : Bytes → List Bytes → Bytes → Type 0 where
  at_root : {node : Bytes} → Root p node [] node
  lesser :
      {node sibling root : Bytes} {siblings : List Bytes}
      → Before node sibling
      → Root p (p.tap_node (node ++ sibling)) siblings root
      → Root p node (sibling ∷ siblings) root
  not_lesser :
      {node sibling root : Bytes} {siblings : List Bytes}
      → ¬ Before node sibling
      → Root p (p.tap_node (sibling ++ node)) siblings root
      → Root p node (sibling ∷ siblings) root

-- The siblings, of 32 bytes each, one after the other.
abbrev pub AreNodes : List Bytes → Type 0
AreNodes [] = Unit
AreNodes (sibling ∷ siblings) = (length sibling ≡ 32) × AreNodes siblings

abbrev pub path_of : List Bytes → Bytes
path_of [] = []
path_of (sibling ∷ siblings) = sibling ++ path_of siblings

length-path_of :
    (siblings : List Bytes) → AreNodes siblings → length (path_of siblings) ≡ 32 * length siblings
length-path_of [] h = refl
length-path_of (sibling ∷ siblings) h =
    omega (arith, length-append sibling (path_of siblings), h.0, length-path_of siblings h.1)

split_first :
    (first rest : Bytes)
    → length first ≡ 32
    → (take 32 (first ++ rest) ≡ first) × (drop 32 (first ++ rest) ≡ rest)
split_first first rest h = (
  ap (λ (n : ℕ). take n (first ++ rest)) (sym h) ∙ take-append first rest,
  ap (λ (n : ℕ). drop n (first ++ rest)) (sym h) ∙ drop-append first rest,
)

module _ (p : Primitives) where
  parent-Root :
      (node sibling root : Bytes) (siblings : List Bytes)
      → Root p (parent p node sibling) siblings root
      → Root p node (sibling ∷ siblings) root
  unfolding parent
  parent-Root node sibling root siblings r = elim (Bool-cases (lex_lt node sibling)) [
    | inl t ↦
        let first : parent p node sibling ≡ p.tap_node (node ++ sibling) = ground (arith, t) in
        lesser (lex_lt-Before node sibling t)
          (subst (λ (h : Bytes). Root p h siblings root) first r)
    | inr f ↦
        let second : parent p node sibling ≡ p.tap_node (sibling ++ node) = ground (arith, f) in
        not_lesser (λ b. absurd (ground (arith, f, Before-lex_lt node sibling b)))
          (subst (λ (h : Bytes). Root p h siblings root) second r)
  ]

  climb-Root :
      (node : Bytes) (siblings : List Bytes)
      → AreNodes siblings
      → Root p node siblings (climb p (length siblings) node (path_of siblings))
  unfolding climb
  climb-Root node [] h = at_root
  climb-Root node (sibling ∷ siblings) h =
      let (first, later) = split_first sibling (path_of siblings) h.0 in
      let next : Bytes = parent p node sibling in
      let step : climb p (suc (length siblings)) node (sibling ++ path_of siblings)
          ≡ climb p (length siblings) next (path_of siblings) =
        ap
          (λ (t : Bytes).
            climb p (length siblings) (parent p node t) (drop 32 (sibling ++ path_of siblings)))
          first
        ∙ ap (λ (t : Bytes). climb p (length siblings) next t) later in
      parent-Root node sibling _ siblings
        (subst (Root p next siblings) (sym step) (climb-Root next siblings h.1))

-- The control block of a key and its siblings.
abbrev control_of : ℕ → Bytes → List Bytes → ControlBlock
control_of first key siblings = record {
  leaf_version = first - first % 2;
  output_parity_odd = first % 2 == 1;
  internal_key = key;
  path = path_of siblings;
}

parse_control-path_of :
    (first : ℕ) (key : Bytes) (siblings : List Bytes)
    → length key ≡ 32
    → AreNodes siblings
    → length siblings ≤ 128
    → parse_control (first ∷ (key ++ path_of siblings)) ≡ ok (control_of first key siblings)
unfolding split_control
parse_control-path_of first key siblings h hn depth =
    let size : length (key ++ path_of siblings) ≡ 32 + 32 * length siblings =
      omega (arith, length-append key (path_of siblings), h, length-path_of siblings hn) in
    let (key_read, path_read) = split_first key (path_of siblings) h in
    parse_control-split (first ∷ (key ++ path_of siblings)) (ground (arith, size, depth))
    ∙ ground (arith, size, key_read, path_read, length-path_of siblings hn)

-- BIP341's conditions: the two keys are keys, and the output key, of the parity that the first byte
-- of the control block has, is the internal key tweaked by the hash of that key and the root.
abbrev pub IsCommitted : Primitives → ℕ → Bytes → Bytes → Bytes → Type 0
IsCommitted p first key output_key root =
    (p.is_key key ≡ true)
    × (p.is_key output_key ≡ true)
    × (p.is_scalar (p.tap_tweak_hash (key ++ root)) ≡ true)
    × (p.tweak_add_check key output_key (first % 2 == 1) (p.tap_tweak_hash (key ++ root)) ≡ true)

-- The answer is whether these conditions hold of the tree's root.
abbrev pub Decides : Primitives → ℕ → Bytes → List Bytes → Bytes → Bytes → Bool → Type 0
Decides p first key siblings output_key leaf_hash b =
    (root : Bytes) × Root p leaf_hash siblings root
    × ((b ≡ true) ↔ IsCommitted p first key output_key root)

abbrev all_four : Bool → Bool → Bool → Bool → Bool
all_four a b c d = a && (b && (c && d))

all_four_iff :
    (a b c d : Bool)
    → (all_four a b c d ≡ true) ↔ ((a ≡ true) × (b ≡ true) × (c ≡ true) × (d ≡ true))
all_four_iff a b c d = ground arith

module _ (p : Primitives) (first : ℕ) (key : Bytes) (siblings : List Bytes)
    (output_key leaf_hash : Bytes) where
  merkle_root-climb :
      AreNodes siblings
      → length siblings ≤ 128
      → taproot_merkle_root p (control_of first key siblings) leaf_hash
        ≡ ok (climb p (length siblings) leaf_hash (path_of siblings))
  unfolding taproot_merkle_root path_len
  merkle_root-climb hn depth =
      let size : length (path_of siblings) ≡ 32 * length siblings = length-path_of siblings hn in
      let nodes : length (path_of siblings) / 32 ≡ length siblings = omega (arith, size) in
      ground (arith, size, nodes, depth)

  verify-Decides :
      AreNodes siblings
      → length siblings ≤ 128
      → Returns
          (Decides p first key siblings output_key leaf_hash)
          (verify_taproot_commitment p (control_of first key siblings) output_key leaf_hash)
  unfolding verify_taproot_commitment tap_tweak
  verify-Decides hn depth =
      let root : Bytes = climb p (length siblings) leaf_hash (path_of siblings) in
      let r : Root p leaf_hash siblings root = climb-Root p leaf_hash siblings hn in
      let found = merkle_root-climb hn depth in
      let tweak : Bytes = p.tap_tweak_hash (key ++ root) in
      let checked : Bool = p.tweak_add_check key output_key (first % 2 == 1) tweak in
      let answer : verify_taproot_commitment p (control_of first key siblings) output_key leaf_hash
          ≡ ok (all_four (p.is_key key) (p.is_key output_key) (p.is_scalar tweak) checked) =
        ground (arith, found) in
      subst (Returns (Decides p first key siblings output_key leaf_hash)) (sym answer)
        (root, r, all_four_iff (p.is_key key) (p.is_key output_key) (p.is_scalar tweak) checked)

  -- `ControlBlock::parse` and `verify_taproot_commitment` on the bytes of a control block: its first
  -- byte, a key of 32 bytes, and up to 128 siblings of 32 bytes. They always return, and the answer
  -- is true exactly when the internal key and the output key are keys and the output key, with the
  -- parity of the first byte, is the internal key tweaked by the hash of the internal key and the
  -- root, which is that of the tree from the leaf hash up, each pair hashed with the lesser first.
  pub commitment-Decides :
      length key ≡ 32
      → AreNodes siblings
      → length siblings ≤ 128
      → Returns (Decides p first key siblings output_key leaf_hash) (do
        control ← parse_control (first ∷ (key ++ path_of siblings))
        verify_taproot_commitment p control output_key leaf_hash)
  commitment-Decides h hn depth =
      subst
        (λ (o : Outcome ControlBlock).
          Returns (Decides p first key siblings output_key leaf_hash)
            (do control ← o; verify_taproot_commitment p control output_key leaf_hash))
        (sym (parse_control-path_of first key siblings h hn depth)) (verify-Decides hn depth)
