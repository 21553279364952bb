-- ===== src/Script/Checker.antt =====
-- crates/consensus/src/script/checker.rs: `TxSigChecker`, which answers the interpreter's questions
-- about one input of a transaction.
pub mod Safety
pub mod Locks
use bitmigo.Prelude.{
  ℕ, zero, suc, ◌+◌, ◌-◌, ◌*◌, ◌/◌, ◌%◌, ◌^◌, Bool, true, false, not, ◌&&◌, List, [], ◌∷◌, Option,
  none, some, ltb, leb, ◌==◌, if◌then◌else◌, length, get_elem?, take,
}
use bitmigo.Prelude.Int.{ℤ, pos, negsuc}
use bitmigo.Script.Error.{
  Outcome, ok, err, panic, ◌>>=◌, ◌>>◌, check, fail_if, schnorr_sig, schnorr_sig_hashtype,
  schnorr_sig_size,
}
use bitmigo.Script.Num.{Bytes, last_byte}
use bitmigo.Script.Stack.{expect}
use bitmigo.Script.Interpreter.{bool_eq}
use bitmigo.Script.Machine.{SigVersion, base, witness_v0, tapscript, TaprootSpend, Checker}
use bitmigo.Script.Sighash.{
  Encoders, Transaction, TxOut, TxPrecomputed, assert_built_for, sighash_default,
}
use bitmigo.Script.Sighash.Legacy.{legacy_sighash}
use bitmigo.Script.Sighash.Segwit.{segwit_v0_sighash}
use bitmigo.Script.Sighash.Taproot.{taproot_sighash}

abbrev pub locktime_threshold : ℕ
locktime_threshold = 500_000_000

abbrev pub sequence_final : ℕ
sequence_final = 0xffff_ffff

abbrev pub sequence_locktime_type_flag : ℕ
sequence_locktime_type_flag = 2 ^ 22

abbrev pub scriptnum_locktime_max : ℕ
scriptnum_locktime_max = 2 ^ 39 - 1

abbrev pub schnorr_signature_len : ℕ
schnorr_signature_len = 64

-- secp256k1: which bytes parse as keys, `from_der_lax` and `normalize_s` of an ECDSA signature, and
-- whether a digest, a signature and a key verify. 64 bytes are a Schnorr signature as they stand.
pub record Curve : Type 0 where
  pub is_pubkey : Bytes → Bool
  pub from_der_lax : Bytes → Option Bytes
  pub normalize_s : Bytes → Bytes
  pub verify_ecdsa : Bytes → Bytes → Bytes → Bool
  pub is_x_only_key : Bytes → Bool
  pub verify_schnorr : Bytes → Bytes → Bytes → Bool

-- Lax DER, a high S normalised, then the check.
unfoldable pub ecdsa_verify : Curve → Bytes → Bytes → Bytes → Bool
ecdsa_verify curve signature pubkey digest = elim (curve.from_der_lax signature) [
  | none ↦ false
  | some parsed ↦ curve.verify_ecdsa digest (curve.normalize_s parsed) pubkey
]

-- A key that is no point of the curve fails the check.
unfoldable pub schnorr_verify : Curve → Bytes → Bytes → Bytes → Bool
schnorr_verify curve signature pubkey digest =
    if not (curve.is_x_only_key pubkey) then false else curve.verify_schnorr signature digest pubkey

pub record TxSigChecker : Type 0 where
  pub tx : Transaction
  pub index : ℕ
  pub prevouts : List TxOut
  pub precomputed : TxPrecomputed

unfoldable pub tx_sig_checker_new :
    Transaction → ℕ → List TxOut → TxPrecomputed → Outcome TxSigChecker
tx_sig_checker_new tx index prevouts precomputed = do
  check (ltb index (length tx.inputs))
  check (length prevouts == length tx.inputs)
  assert_built_for precomputed tx
  ok (record { tx = tx; index = index; prevouts = prevouts; precomputed = precomputed })

-- `signature.split_last()`'s second half
abbrev pub signature_body : Bytes → Bytes
signature_body signature = take (length signature - 1) signature

abbrev pub ecdsa_digest : Encoders → TxSigChecker → Bytes → ℕ → SigVersion → Outcome Bytes
ecdsa_digest e c script_code hash_type base = legacy_sighash e c.tx c.index script_code hash_type
ecdsa_digest e c script_code hash_type witness_v0 = do
  prevout ← expect (get_elem? c.prevouts c.index)
  segwit_v0_sighash e c.tx c.index script_code prevout.value hash_type c.precomputed
ecdsa_digest e c script_code hash_type tapscript = panic

unfoldable pub check_ecdsa :
    Encoders → Curve → TxSigChecker → Bytes → Bytes → Bytes → SigVersion → Outcome Bool
check_ecdsa e curve c [] pubkey script_code sig_version = ok false
check_ecdsa e curve c (byte ∷ bytes) pubkey script_code sig_version =
    if not (curve.is_pubkey pubkey) then ok false else do
      digest ← ecdsa_digest e c script_code (last_byte (byte ∷ bytes)) sig_version
      ok (ecdsa_verify curve (signature_body (byte ∷ bytes)) pubkey digest)

-- The hash type that a Schnorr signature's length and last byte spell.
unfoldable pub schnorr_hash_type : Bytes → Outcome ℕ
schnorr_hash_type signature =
    if length signature == schnorr_signature_len
    then ok sighash_default
    else if length signature == schnorr_signature_len + 1
    then (do
      let hash_type = last_byte signature
      fail_if (hash_type == sighash_default) schnorr_sig_hashtype
      ok hash_type)
    else err schnorr_sig_size

unfoldable pub check_schnorr :
    Encoders
    → Curve
    → TxSigChecker
    → Bytes
    → Bytes
    → TaprootSpend
    → Option Bytes
    → Outcome (Unit {0})
check_schnorr e curve c signature pubkey spend annex = do
  hash_type ← schnorr_hash_type signature
  digest ← taproot_sighash e c.tx c.index c.prevouts hash_type spend annex c.precomputed
  if schnorr_verify curve (take schnorr_signature_len signature) pubkey digest
      then ok tt
      else err schnorr_sig

-- The two assertions on an operand, as a number.
abbrev pub operand : ℤ → Outcome ℕ
operand (negsuc n) = panic
operand (pos n) = do check (leb n scriptnum_locktime_max); ok n

unfoldable pub tx_check_locktime : TxSigChecker → ℤ → Outcome Bool
tx_check_locktime c lock_time = do
  n ← operand lock_time
  let tx_lock_time = c.tx.lock_time
  let same_kind = bool_eq (ltb tx_lock_time locktime_threshold) (ltb n locktime_threshold)
  if not same_kind then ok false else if ltb tx_lock_time n then ok false else do
    input ← expect (get_elem? c.tx.inputs c.index)
    ok (not (input.sequence == sequence_final))

-- `cast_unsigned` of an `i32`
abbrev pub cast_unsigned : ℤ → ℕ
cast_unsigned (pos n) = n
cast_unsigned (negsuc n) = 2 ^ 32 - suc n

-- `sequence & (SEQUENCE_LOCKTIME_TYPE_FLAG | SEQUENCE_LOCKTIME_MASK)`: bit 22 and the low 16.
abbrev pub masked : ℕ → ℕ
masked sequence = sequence / 2 ^ 22 % 2 * 2 ^ 22 + sequence % 2 ^ 16

unfoldable pub tx_check_sequence : TxSigChecker → ℤ → Outcome Bool
tx_check_sequence c sequence = do
  n ← operand sequence
  input ← expect (get_elem? c.tx.inputs c.index)
  if ltb (cast_unsigned c.tx.version) 2
      then ok false
      else if input.sequence / 2 ^ 31 % 2 == 1
      then ok false
      else do
        let tx_masked = masked input.sequence
        let same_kind =
            bool_eq (ltb tx_masked sequence_locktime_type_flag)
              (ltb (masked n) sequence_locktime_type_flag)
        ok (same_kind && not (ltb tx_masked (masked n)))

-- What the interpreter is given.
abbrev pub checker_of : Encoders → Curve → TxSigChecker → Checker
checker_of e curve c = record {
  check_ecdsa = check_ecdsa e curve c;
  check_schnorr = check_schnorr e curve c;
  check_locktime = tx_check_locktime c;
  check_sequence = tx_check_sequence c;
}
