-- ===== src/Script/Sighash/Engine.antt =====
-- What feeds a hash engine, sighash.rs: `encode` and its repetitions never fail their assertion.
use bitmigo.Prelude.{
  ℕ, zero, suc, ◌<◌, ◌≡◌, refl, not, List, [], ◌∷◌, ◌==◌, length, get_elem?, map, arith,
}
use bitmigo.Prelude.Int.{ℤ}
use bitmigo.Script.Error.{Outcome, ◌>>=◌, Safe, Safe-then, NoPanic, check}
use bitmigo.Script.Num.{Bytes}
use bitmigo.Script.Num.Value.{All}
use bitmigo.Script.Stack.{expect}
use bitmigo.Script.Sighash.{
  Encoders, Transaction, TxIn, TxOut, OutPoint, TxPrecomputed, encode_into, encode_each,
  assert_built_for, from_hash_type, sha256_each, tx_precomputed_new,
}

-- What the encodings of the `bitcoin` crate are relied on for: each writes a byte at least.
pub record Writes (e : Encoders) : Type 0 where
  pub version_ok : (v : ℤ) → 0 < length (e.version v)
  pub out_point_ok : (o : OutPoint) → 0 < length (e.out_point o)
  pub tx_out_ok : (o : TxOut) → 0 < length (e.tx_out o)
  pub null_ok : 0 < length e.null_tx_out
  pub amount_ok : (n : ℕ) → 0 < length (e.amount n)
  pub script_ok : (s : Bytes) → 0 < length (e.script s)
  pub sequence_ok : (n : ℕ) → 0 < length (e.sequence n)
  pub lock_time_ok : (n : ℕ) → 0 < length (e.lock_time n)
  pub u32_ok : (n : ℕ) → 0 < length (e.u32 n)
  pub var_int_ok : (n : ℕ) → 0 < length (e.var_int n)

pub encode-Safe : (engine value : Bytes) → 0 < length value → NoPanic (encode_into engine value)
encode-Safe engine value h = ground arith

pub get_elem?-Safe {ℓ} :
    {A : Type ℓ} (xs : List A) (i : ℕ) → i < length xs → NoPanic (expect (get_elem? xs i))
get_elem?-Safe [] i h = absurd (omega arith)
get_elem?-Safe (x ∷ xs) zero h = tt
get_elem?-Safe (x ∷ xs) (suc i) h = get_elem?-Safe xs i (omega arith)

-- What a precompute shares with the transaction it was built for.
abbrev pub BuiltFor : TxPrecomputed → Transaction → Type 0
BuiltFor p tx = (length tx.inputs ≡ p.input_count) × (length tx.outputs ≡ p.output_count)

module _ (e : Encoders) (w : Writes e) where
  pub encode_each-NoPanic :
      (items : List Bytes) (engine : Bytes)
      → All (λ item. 0 < length item) items
      → NoPanic (encode_each engine items)
  unfolding encode_each
  encode_each-NoPanic [] engine h = tt
  encode_each-NoPanic (item ∷ items) engine h =
      Safe-then (λ _. Unit) (encode_into engine item) _ (encode-Safe engine item h.0)
        λ engine'. encode_each-NoPanic items engine' h.1

  All-map :
      {A : Type 0} (f : A → Bytes) (xs : List A)
      → ((x : A) → 0 < length (f x))
      → All (λ item. 0 < length item) (map f xs)
  All-map f [] h = tt
  All-map f (x ∷ xs) h = (h x, All-map f xs h)

  pub sha256_each-NoPanic :
      {A : Type 0} (f : A → Bytes) (xs : List A)
      → ((x : A) → 0 < length (f x))
      → NoPanic (sha256_each e (map f xs))
  sha256_each-NoPanic f xs h =
      Safe-then (λ _. Unit) (encode_each [] (map f xs)) _
        (encode_each-NoPanic (map f xs) [] (All-map f xs h)) λ engine. tt

  pub from_hash_type-NoPanic : (hash_type : ℕ) → NoPanic (from_hash_type hash_type)
  unfolding from_hash_type
  from_hash_type-NoPanic hash_type = ground arith

  -- `encode` many times over: the step of a digest.
  pub then_encode :
      {B : Type 0} (engine value : Bytes) (k : Bytes → Outcome B)
      → 0 < length value
      → ((engine' : Bytes) → NoPanic (k engine'))
      → NoPanic (encode_into engine value >>= k)
  then_encode engine value k h rest =
      Safe-then (λ _. Unit) (encode_into engine value) k (encode-Safe engine value h) rest

  pub assert_built_for-NoPanic :
      (p : TxPrecomputed) (tx : Transaction) → BuiltFor p tx → NoPanic (assert_built_for p tx)
  assert_built_for-NoPanic p tx h = ground (arith, h)

  -- A precompute is built for its transaction.
  pub tx_precomputed_new-Safe :
      (tx : Transaction) (prevouts : List TxOut)
      → 0 < length tx.inputs
      → length prevouts ≡ length tx.inputs
      → Safe (λ p. BuiltFor p tx) (tx_precomputed_new e tx prevouts)
  unfolding tx_precomputed_new
  tx_precomputed_new-Safe tx prevouts h hp =
      let built = λ (p : TxPrecomputed). BuiltFor p tx in
      Safe-then built (check (not (length tx.inputs == 0))) _ (ground arith) λ _.
        Safe-then built (check (length prevouts == length tx.inputs)) _ (ground (arith, hp)) λ _.
          Safe-then built _ _
            (sha256_each-NoPanic (λ (i : TxIn). e.out_point i.previous_output) tx.inputs
              λ i. w.out_point_ok i.previous_output)
            λ _.
              Safe-then built _ _
                (sha256_each-NoPanic (λ (i : TxIn). e.sequence i.sequence) tx.inputs
                  λ i. w.sequence_ok i.sequence)
                λ _. Safe-then built _ _ (sha256_each-NoPanic e.tx_out tx.outputs w.tx_out_ok) λ _.
                  Safe-then built _ _
                    (sha256_each-NoPanic (λ (o : TxOut). e.amount o.value) prevouts
                      λ o. w.amount_ok o.value)
                    λ _.
                      Safe-then built _ _
                        (sha256_each-NoPanic (λ (o : TxOut). e.script o.script_pubkey) prevouts
                          λ o. w.script_ok o.script_pubkey)
                        λ _. (refl, refl)
