-- ===== src/Script/Checker/Safety.antt =====
-- The checker of checker.rs keeps what the interpreter relies on: `CheckerSafe`.
use bitmigo.Prelude.{
  ℕ, ◌≤◌, ◌<◌, ◌^◌, ◌-◌, ◌≡◌, ◌≢◌, refl, false, not, List, [], ◌∷◌, Option, ltb, ◌==◌, length, take,
  get_elem?, arith,
}
use bitmigo.Prelude.Int.{pos}
use bitmigo.Script.Error.{ok, err, Safe, Safe-then, Safe-if, NoPanic, check, schnorr_sig}
use bitmigo.Script.Num.{Bytes, last_byte}
use bitmigo.Script.Stack.{expect}
use bitmigo.Script.Machine.{
  SigVersion, base, witness_v0, tapscript, TaprootSpend, CheckerSafe, IsAnnex,
}
use bitmigo.Script.Sighash.{Encoders, Transaction, TxOut, TxPrecomputed, assert_built_for}
use bitmigo.Script.Sighash.Taproot.{taproot_sighash}
use bitmigo.Script.Sighash.Engine.{Writes, BuiltFor, get_elem?-Safe}
use bitmigo.Script.Sighash.Safety.{legacy_sighash-NoPanic}
use bitmigo.Script.Sighash.Witness.{segwit_v0_sighash-NoPanic, taproot_sighash-NoPanic}
use bitmigo.Script.Checker.{
  schnorr_verify, Curve, TxSigChecker, tx_sig_checker_new, ecdsa_digest, check_ecdsa,
  schnorr_hash_type, check_schnorr, tx_check_locktime, tx_check_sequence, checker_of,
}

-- What `TxSigChecker::new` asserts; and the inputs fit `u32`, as a transaction's do.
pub record IsChecker (c : TxSigChecker) : Type 0 where
  pub index_ok : c.index < length c.tx.inputs
  pub prevouts_ok : length c.prevouts ≡ length c.tx.inputs
  pub built_ok : BuiltFor c.precomputed c.tx
  pub inputs_ok : length c.tx.inputs ≤ 2 ^ 32

-- `new` gives such a checker.
pub tx_sig_checker_new-Safe :
    (tx : Transaction) (index : ℕ) (prevouts : List TxOut) (p : TxPrecomputed)
    → index < length tx.inputs
    → length prevouts ≡ length tx.inputs
    → BuiltFor p tx
    → length tx.inputs ≤ 2 ^ 32
    → Safe IsChecker (tx_sig_checker_new tx index prevouts p)
unfolding tx_sig_checker_new
tx_sig_checker_new-Safe tx index prevouts p h hp hb l =
    Safe-then IsChecker (check (ltb index (length tx.inputs))) _ (ground arith) λ _.
      Safe-then IsChecker (check (length prevouts == length tx.inputs)) _ (ground (arith, hp)) λ _.
        Safe-then IsChecker (assert_built_for p tx) _ (ground (arith, hb))
          λ _. record { index_ok = h; prevouts_ok = hp; built_ok = hb; inputs_ok = l }

module _ (e : Encoders) (w : Writes e) (curve : Curve) (c : TxSigChecker) (h : IsChecker c) where
  digest-NoPanic :
      (script_code : Bytes) (hash_type : ℕ) (v : SigVersion)
      → v ≢ tapscript
      → NoPanic (ecdsa_digest e c script_code hash_type v)
  digest-NoPanic script_code hash_type base n =
      legacy_sighash-NoPanic e w c.tx c.index script_code hash_type h.index_ok
  digest-NoPanic script_code hash_type witness_v0 n =
      Safe-then (λ _. Unit) (expect (get_elem? c.prevouts c.index)) _
        (get_elem?-Safe c.prevouts c.index (omega (arith, h.index_ok, h.prevouts_ok)))
        λ prevout.
          segwit_v0_sighash-NoPanic e w c.tx c.index script_code prevout.value hash_type
            c.precomputed h.index_ok h.built_ok
  digest-NoPanic script_code hash_type tapscript n = absurd (n refl)

  check_ecdsa-NoPanic :
      (signature pubkey script_code : Bytes) (v : SigVersion)
      → v ≢ tapscript
      → NoPanic (check_ecdsa e curve c signature pubkey script_code v)
  unfolding check_ecdsa
  check_ecdsa-NoPanic [] pubkey script_code v n = tt
  check_ecdsa-NoPanic (byte ∷ bytes) pubkey script_code v n =
      Safe-if (λ _. Unit) (not (curve.is_pubkey pubkey)) (ok false) _ (λ _. tt)
        λ _.
          Safe-then (λ _. Unit) (ecdsa_digest e c script_code (last_byte (byte ∷ bytes)) v) _
            (digest-NoPanic script_code _ v n) λ digest. tt

  check_schnorr-NoPanic :
      (signature pubkey : Bytes) (spend : TaprootSpend) (annex : Option Bytes)
      → IsAnnex annex
      → NoPanic (check_schnorr e curve c signature pubkey spend annex)
  unfolding check_schnorr
  check_schnorr-NoPanic signature pubkey spend annex ha =
      Safe-then (λ _. Unit) (schnorr_hash_type signature) _
        (unfold schnorr_hash_type in ground arith)
        λ hash_type.
          Safe-then (λ _. Unit)
            (taproot_sighash e c.tx c.index c.prevouts hash_type spend annex c.precomputed) _
            (taproot_sighash-NoPanic e w c.tx c.index c.prevouts hash_type spend annex c.precomputed
              h.index_ok h.inputs_ok h.prevouts_ok h.built_ok ha)
            λ digest.
              Safe-if (λ _. Unit) (schnorr_verify curve (take 64 signature) pubkey digest) (ok tt)
                (err schnorr_sig) (λ _. tt) λ _. tt

  tx_check_locktime-NoPanic : (n : ℕ) → n ≤ 2 ^ 39 - 1 → NoPanic (tx_check_locktime c (pos n))
  unfolding tx_check_locktime
  tx_check_locktime-NoPanic n l = ground (arith, l, get_elem?-Safe c.tx.inputs c.index h.index_ok)

  tx_check_sequence-NoPanic : (n : ℕ) → n ≤ 2 ^ 39 - 1 → NoPanic (tx_check_sequence c (pos n))
  unfolding tx_check_sequence
  tx_check_sequence-NoPanic n l = ground (arith, l, get_elem?-Safe c.tx.inputs c.index h.index_ok)

-- The checker of a transaction's input keeps `CheckerSafe`, all that the interpreter relies on,
-- when it is as `TxSigChecker::new` asserts and the transaction has 2^32 inputs at most: the three
-- digests never fail an assertion, given that every encoding writes a byte at least.
pub checker_of-CheckerSafe :
    (e : Encoders) (curve : Curve) (c : TxSigChecker)
    → Writes e
    → IsChecker c
    → CheckerSafe (checker_of e curve c)
checker_of-CheckerSafe e curve c w h = record {
  ecdsa_safe = check_ecdsa-NoPanic e w curve c h;
  schnorr_safe = λ signature pubkey spend annex _ ha.
      check_schnorr-NoPanic e w curve c h signature pubkey spend annex ha;
  locktime_safe = tx_check_locktime-NoPanic e w curve c h;
  sequence_safe = tx_check_sequence-NoPanic e w curve c h;
}
