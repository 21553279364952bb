-- ===== src/Script/Sighash/Taproot.antt =====
-- crates/consensus/src/script/sighash.rs: the taproot digest, BIP341 with BIP342's extension.
use bitmigo.Prelude.{
  ℕ, ◌+◌, ◌*◌, ◌%◌, ◌^◌, Bool, true, false, not, ◌&&◌, ◌||◌, List, [], ◌∷◌, ◌++◌, Option, none,
  some, ltb, leb, ◌==◌, if◌then◌else◌, length, get_elem?,
}
use bitmigo.Script.Error.{Outcome, ok, ◌>>=◌, ◌>>◌, check, fail_if, schnorr_sig_hashtype}
use bitmigo.Script.Num.{Bytes}
use bitmigo.Script.Stack.{expect}
use bitmigo.Script.Machine.{TaprootSpend, key_path, tapscript_leaf, is_annex}
use bitmigo.Script.Sighash.{
  Encoders, Transaction, TxOut, TxPrecomputed, encode_into, sha256_each, assert_built_for,
  has_anyone_can_pay, sighash_all, sighash_default, sighash_single,
}

abbrev pub ext_flag : TaprootSpend → ℕ
ext_flag key_path = 0
ext_flag (tapscript_leaf leaf_hash codesep_pos) = 1

abbrev pub is_some : Option Bytes → Bool
is_some none = false
is_some (some annex) = true

-- `assert_eq!(annex.first(), Some(&ANNEX_TAG))`
abbrev pub check_annex : Option Bytes → Outcome (Unit {0})
check_annex none = ok tt
check_annex (some annex) = check (is_annex annex)

-- The hash of the annex, at the end of the input's section.
abbrev pub encode_annex : Encoders → Bytes → Option Bytes → Outcome Bytes
encode_annex e engine none = ok engine
encode_annex e engine (some annex) = do
  annex_engine ← encode_into [] (e.var_int (length annex))
  ok (engine ++ e.sha256 (annex_engine ++ annex))

-- Core's order: the spend type, the input or its index, the annex.
unfoldable pub taproot_encode_input :
    Encoders
    → Bytes
    → Transaction
    → ℕ
    → List TxOut
    → Bool
    → TaprootSpend
    → Option Bytes
    → Outcome Bytes
taproot_encode_input e engine tx index prevouts anyone_can_pay spend annex = do
  let spend_type = ext_flag spend * 2 + (if is_some annex then 1 else 0)
  check (leb spend_type 3)
  let engine₁ = engine ++ (spend_type ∷ [])
  engine₂ ←
      (if anyone_can_pay
        then (do
          input ← expect (get_elem? tx.inputs index)
          prevout ← expect (get_elem? prevouts index)
          a ← encode_into engine₁ (e.out_point input.previous_output)
          b ← encode_into a (e.tx_out prevout)
          encode_into b (e.sequence input.sequence))
        else (do check (ltb index (2 ^ 32)); encode_into engine₁ (e.u32 index)))
  encode_annex e engine₂ annex

-- `hash_type <= SIGHASH_SINGLE || (0x81..=0x83).contains(&hash_type)`
abbrev pub is_defined : ℕ → Bool
is_defined hash_type = leb hash_type sighash_single || leb 0x81 hash_type && leb hash_type 0x83

abbrev pub taproot_output_type : ℕ → ℕ
taproot_output_type hash_type = if hash_type == sighash_default then sighash_all else hash_type % 4

-- The extension of a tapscript: leaf hash, key version 0, separator position.
abbrev pub encode_extension : Encoders → Bytes → TaprootSpend → Outcome Bytes
encode_extension e engine key_path = ok engine
encode_extension e engine (tapscript_leaf leaf_hash codesep_pos) =
    encode_into (engine ++ (leaf_hash ++ (0 ∷ []))) (e.u32 codesep_pos)

-- The message, once the hash type is known to be good.
unfoldable pub taproot_message :
    Encoders
    → Transaction
    → ℕ
    → List TxOut
    → ℕ
    → TaprootSpend
    → Option Bytes
    → TxPrecomputed
    → Outcome Bytes
taproot_message e tx index prevouts hash_type spend annex p = do
  let output_type = taproot_output_type hash_type
  let anyone_can_pay = has_anyone_can_pay hash_type
  engine₁ ← encode_into (0 ∷ hash_type ∷ []) (e.version tx.version)
  engine₂ ← encode_into engine₁ (e.lock_time tx.lock_time)
  let engine₃ =
      if anyone_can_pay
      then engine₂
      else engine₂
        ++ (p.sha_prevouts ++ (p.sha_amounts ++ (p.sha_scriptpubkeys ++ p.sha_sequences)))
  let engine₄ = if output_type == sighash_all then engine₃ ++ p.sha_outputs else engine₃
  engine₅ ← taproot_encode_input e engine₄ tx index prevouts anyone_can_pay spend annex
  engine₆ ←
      (if output_type == sighash_single
        then (do
          output ← expect (get_elem? tx.outputs index)
          digest ← sha256_each e (e.tx_out output ∷ [])
          ok (engine₅ ++ digest))
        else ok engine₅)
  encode_extension e engine₆ spend

unfoldable pub taproot_sighash :
    Encoders
    → Transaction
    → ℕ
    → List TxOut
    → ℕ
    → TaprootSpend
    → Option Bytes
    → TxPrecomputed
    → Outcome Bytes
taproot_sighash e tx index prevouts hash_type spend annex precomputed = do
  check (ltb index (length tx.inputs))
  check (length prevouts == length tx.inputs)
  assert_built_for precomputed tx
  check_annex annex
  fail_if (not (is_defined hash_type)) schnorr_sig_hashtype
  fail_if (taproot_output_type hash_type == sighash_single && leb (length tx.outputs) index)
      schnorr_sig_hashtype
  engine ← taproot_message e tx index prevouts hash_type spend annex precomputed
  ok (e.tap_sighash engine)
