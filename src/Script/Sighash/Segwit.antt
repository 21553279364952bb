-- ===== src/Script/Sighash/Segwit.antt =====
-- crates/consensus/src/script/sighash.rs: the witness v0 digest, BIP143.
use bitmigo.Prelude.{
  ℕ, ◌||◌, [], ◌∷◌, ◌++◌, Option, none, some, ltb, if◌then◌else◌, length, get_elem?,
}
use bitmigo.Script.Error.{Outcome, ok, ◌>>=◌, ◌>>◌, check}
use bitmigo.Script.Num.{Bytes}
use bitmigo.Script.Stack.{expect}
use bitmigo.Script.Sighash.{
  Encoders, Transaction, TxIn, TxOut, TxPrecomputed, assert_built_for, encode_into, from_hash_type,
  sha256d_each, zero_hash,
}

-- `hash_outputs` of BIP143.
abbrev pub single_output_hash : Encoders → Option TxOut → Outcome Bytes
single_output_hash e none = ok zero_hash
single_output_hash e (some output) = sha256d_each e (e.tx_out output ∷ [])

-- The three hashes, which the mode selects, around the input.
unfoldable pub segwit_v0_preimage :
    Encoders → Transaction → TxIn → Bytes → ℕ → ℕ → Bytes → Bytes → Bytes → Outcome Bytes
segwit_v0_preimage e tx input script_code amount hash_type hash_prevouts hash_sequence
      hash_outputs =
    do
      engine₁ ← encode_into [] (e.version tx.version)
      engine₂ ←
          encode_into (engine₁ ++ (hash_prevouts ++ hash_sequence))
            (e.out_point input.previous_output)
      engine₃ ← encode_into engine₂ (e.script script_code)
      engine₄ ← encode_into engine₃ (e.amount amount)
      engine₅ ← encode_into engine₄ (e.sequence input.sequence)
      engine₆ ← encode_into (engine₅ ++ hash_outputs) (e.lock_time tx.lock_time)
      encode_into engine₆ (e.u32 hash_type)

unfoldable pub segwit_v0_sighash :
    Encoders → Transaction → ℕ → Bytes → ℕ → ℕ → TxPrecomputed → Outcome Bytes
segwit_v0_sighash e tx index script_code amount hash_type precomputed = do
  check (ltb index (length tx.inputs))
  assert_built_for precomputed tx
  mode ← from_hash_type hash_type
  let hash_prevouts = if mode.anyone_can_pay then zero_hash else precomputed.hash_prevouts
  let hash_sequence =
      if mode.anyone_can_pay || (mode.single || mode.none_mode)
      then zero_hash
      else precomputed.hash_sequence
  hash_outputs ←
      (if mode.single
        then single_output_hash e (get_elem? tx.outputs index)
        else ok (if mode.none_mode then zero_hash else precomputed.hash_outputs))
  input ← expect (get_elem? tx.inputs index)
  engine ←
      segwit_v0_preimage e tx input script_code amount hash_type hash_prevouts hash_sequence
        hash_outputs
  ok (e.sha256d engine)
