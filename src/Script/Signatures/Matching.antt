-- ===== src/Script/Signatures/Matching.antt =====
-- The matching loop of `OP_CHECKMULTISIG` (interpreter.rs, `checkmultisig_verify`) against what it
-- decides: whether the signatures can be assigned to keys in order.
use bitmigo.Prelude.{
  ℕ, zero, suc, ◌+◌, ◌-◌, ◌≤◌, ◌<◌, ◌≡◌, refl, ap, ◌↔◌, Bool, true, false, ◌&&◌, ◌||◌, List, [],
  ◌∷◌, length, get_elem?, get_or, arith, some, Bool-cases, inl, inr,
}
use bitmigo.Script.Error.{ok}
use bitmigo.Script.Num.{Bytes}
use bitmigo.Script.Num.Value.{All}
use bitmigo.Script.Stack.{Stack, top}
use bitmigo.Script.Der.{check_signature_encoding}
use bitmigo.Script.Machine.{Env}
use bitmigo.Script.Signatures.{checkmultisig_verify}

-- The elements at the depths `depth`, `depth + 1` and so on, a number of them.
abbrev pub items_from : Stack → ℕ → ℕ → List Bytes
items_from s depth zero = []
items_from s depth (suc n) = get_or s (depth - 1) [] ∷ items_from s (depth + 1) n

-- Every signature has its own key, in the same order. A verdict says whether a key verifies a
-- signature.
pub data Matched (verdict : Bytes → Bytes → Bool) : List Bytes → List Bytes → Type 0 where
  all_matched : Matched verdict [] []
  key_used :
      {g k : Bytes} {gs ks : List Bytes}
      → verdict g k ≡ true
      → Matched verdict gs ks
      → Matched verdict (g ∷ gs) (k ∷ ks)
  key_skipped :
      {k : Bytes} {gs ks : List Bytes} → Matched verdict gs ks → Matched verdict gs (k ∷ ks)

module _ (verdict : Bytes → Bytes → Bool) where
  -- The same as a test, which tries both choices for every key.
  unfoldable matchable : List Bytes → List Bytes → Bool
  matchable [] ks = true
  matchable (g ∷ gs) [] = false
  matchable (g ∷ gs) (k ∷ ks) =
      let later = matchable (g ∷ gs) ks in
      let used = matchable gs ks in verdict g k && used || later

  matchable-skip :
      (k : Bytes) (gs ks : List Bytes) → matchable gs ks ≡ true → matchable gs (k ∷ ks) ≡ true
  unfolding matchable
  matchable-skip k [] ks h = refl
  matchable-skip k (g ∷ gs) ks h = ground (arith, h)

  matchable-tail :
      (g : Bytes) (gs ks : List Bytes) → matchable (g ∷ gs) ks ≡ true → matchable gs ks ≡ true
  unfolding matchable
  matchable-tail g gs [] h = ground (arith, h)
  matchable-tail g gs (k ∷ ks) h = ground (arith, h, matchable-tail g gs ks, matchable-skip k gs ks)

  matchable-short : (gs ks : List Bytes) → length ks < length gs → matchable gs ks ≡ false
  unfolding matchable
  matchable-short [] ks h = absurd (omega arith)
  matchable-short (g ∷ gs) [] h = refl
  matchable-short (g ∷ gs) (k ∷ ks) h =
      ground (arith, matchable-short gs ks (omega arith), matchable-short (g ∷ gs) ks (omega arith))

  -- Using a key that verifies the next signature loses nothing.
  matchable-greedy :
      (g k : Bytes) (gs ks : List Bytes)
      → verdict g k ≡ true
      → matchable (g ∷ gs) (k ∷ ks) ≡ matchable gs ks
  unfolding matchable
  matchable-greedy g k gs ks h = ground (arith, h, matchable-tail g gs ks)

  matchable-refused :
      (g k : Bytes) (gs ks : List Bytes)
      → verdict g k ≡ false
      → matchable (g ∷ gs) (k ∷ ks) ≡ matchable (g ∷ gs) ks
  unfolding matchable
  matchable-refused g k gs ks h = ground (arith, h)

  none-Matched : (ks : List Bytes) → Matched verdict [] ks
  none-Matched [] = all_matched
  none-Matched (k ∷ ks) = key_skipped (none-Matched ks)

  matchable-Matched : (gs ks : List Bytes) → matchable gs ks ≡ true → Matched verdict gs ks
  unfolding matchable
  matchable-Matched [] ks h = none-Matched ks
  matchable-Matched (g ∷ gs) [] h = absurd (ground (arith, h))
  matchable-Matched (g ∷ gs) (k ∷ ks) h = elim (Bool-cases (matchable (g ∷ gs) ks)) [
    | inl later ↦ key_skipped (matchable-Matched (g ∷ gs) ks later)
    | inr e ↦ key_used (ground (arith, h, e)) (matchable-Matched gs ks (ground (arith, h, e)))
  ]

  Matched-matchable : {gs ks : List Bytes} → Matched verdict gs ks → matchable gs ks ≡ true
  unfolding matchable
  Matched-matchable all_matched = refl
  Matched-matchable (key_used e m) = ground (arith, e, Matched-matchable m)
  Matched-matchable (key_skipped {k} {gs} {ks} m) = matchable-skip k gs ks (Matched-matchable m)

  length-items_from : (s : Stack) (depth n : ℕ) → length (items_from s depth n) ≡ n
  length-items_from s depth zero = refl
  length-items_from s depth (suc n) = ap suc (length-items_from s (depth + 1) n)

  get_elem?-get_or : (s : Stack) (i : ℕ) → i < length s → get_elem? s i ≡ some (get_or s i [])
  get_elem?-get_or [] i h = absurd (omega arith)
  get_elem?-get_or (x ∷ s) zero h = refl
  get_elem?-get_or (x ∷ s) (suc i) h = get_elem?-get_or s i (omega arith)

  top-get_or :
      (depth : ℕ) (s : Stack)
      → 1 ≤ depth
      → depth ≤ length s
      → top depth s ≡ ok (get_or s (depth - 1) [])
  unfolding top
  top-get_or depth s lo hi = ground (arith, get_elem?-get_or s (depth - 1) (omega arith))

  module _ (env : Env) (s : Stack) (code : Bytes) where
    -- What the loop asks for a signature and a key is answered by the verdict.
    abbrev Answers : Type 0
    Answers = (g k : Bytes) → env.checker.check_ecdsa g k code env.sig_version ≡ ok (verdict g k)

    abbrev IsEncodedWell : Bytes → Type 0
    IsEncodedWell g = check_signature_encoding g env.flags ≡ ok tt

    verify-matchable :
        (fuel ikey isig keys sigs : ℕ)
        → Answers
        → All IsEncodedWell (items_from s isig sigs)
        → 1 ≤ ikey
        → 1 ≤ isig
        → ikey + keys ≤ length s + 1
        → isig + sigs ≤ length s + 1
        → sigs ≤ keys
        → keys ≤ fuel
        → checkmultisig_verify fuel env s ikey isig keys sigs code
          ≡ ok (matchable (items_from s isig sigs) (items_from s ikey keys))
    unfolding checkmultisig_verify
    verify-matchable fuel ikey isig keys zero an en a b c d e f = unfold matchable in refl
    verify-matchable zero ikey isig keys (suc sigs) an en a b c d e f = absurd (omega arith)
    verify-matchable (suc fuel) ikey isig zero (suc sigs) an en a b c d e f = absurd (omega arith)
    verify-matchable (suc fuel) ikey isig (suc keys) (suc sigs) an en a b c d e f =
        let g : Bytes = get_or s (isig - 1) [] in
        let k : Bytes = get_or s (ikey - 1) [] in
        let gs : List Bytes = items_from s (isig + 1) sigs in
        let ks : List Bytes = items_from s (ikey + 1) keys in
        ground (
          arith,
          top-get_or isig s b (omega arith),
          top-get_or ikey s a (omega arith),
          en.0,
          an g k,
          matchable-greedy g k gs ks,
          matchable-refused g k gs ks,
          length-items_from s (ikey + 1) keys,
          length-items_from s (isig + 1) sigs,
          matchable-short (g ∷ gs) ks,
          verify-matchable fuel (ikey + 1) (isig + 1) keys sigs an en.1,
          verify-matchable fuel (ikey + 1) isig keys (suc sigs) an en,
        )

-- Where the signatures are well encoded and the checker gives verdicts, the matching loop of 20
-- rounds at most returns a Boolean, and it is true exactly when the signatures can be assigned, in
-- order, to keys that verify them, which are on the stack from `isig` and from `ikey` on.
pub verify-Matched :
    (verdict : Bytes → Bytes → Bool) (env : Env) (s : Stack) (code : Bytes)
    (ikey isig keys sigs : ℕ)
    → ((g k : Bytes) → env.checker.check_ecdsa g k code env.sig_version ≡ ok (verdict g k))
    → All (λ g. check_signature_encoding g env.flags ≡ ok tt) (items_from s isig sigs)
    → 1 ≤ ikey
    → 1 ≤ isig
    → ikey + keys ≤ length s + 1
    → isig + sigs ≤ length s + 1
    → sigs ≤ keys
    → keys ≤ 20
    → (matched : Bool) × (checkmultisig_verify 20 env s ikey isig keys sigs code ≡ ok matched)
      × ((matched ≡ true) ↔ Matched verdict (items_from s isig sigs) (items_from s ikey keys))
verify-Matched verdict env s code ikey isig keys sigs an en a b c d e f = (
  matchable verdict (items_from s isig sigs) (items_from s ikey keys),
  verify-matchable verdict env s code 20 ikey isig keys sigs an en a b c d e f,
  (
    matchable-Matched verdict (items_from s isig sigs) (items_from s ikey keys),
    Matched-matchable verdict,
  ),
)
