-- ===== src/Script/Verify/Input.antt =====
-- crates/consensus/src/script/verify.rs: `verify_input`, what the node calls for each input.
use bitmigo.Prelude.{
  ℕ, ◌≤◌, ◌<◌, ◌^◌, ◌≡◌, true, List, ltb, ◌==◌, length, get_elem?, [], ◌∷◌, zero, suc, arith,
}
use bitmigo.Script.Error.{Outcome, ◌>>=◌, ◌>>◌, check, Safe, Safe-bind, Safe-then, NoPanic}
use bitmigo.Script.Num.Value.{All, IsBytes}
use bitmigo.Script.Stack.{expect}
use bitmigo.Script.Flags.{ScriptFlags, contains, flag_p2sh, flag_witness, flag_taproot}
use bitmigo.Script.Machine.{Hashes}
use bitmigo.Script.Numeric.Safety.{HashesSafe}
use bitmigo.Script.Taproot.{Primitives}
use bitmigo.Script.Sighash.{Encoders, Transaction, TxIn, TxOut, TxPrecomputed, tx_precomputed_new}
use bitmigo.Script.Sighash.Engine.{Writes, BuiltFor, tx_precomputed_new-Safe}
use bitmigo.Script.Checker.{Curve, tx_sig_checker_new, checker_of}
use bitmigo.Script.Checker.Safety.{IsChecker, tx_sig_checker_new-Safe, checker_of-CheckerSafe}
use bitmigo.Script.Verify.{Rules, verify_script}
use bitmigo.Script.Verify.Items.{IsWitnessItem}
use bitmigo.Script.Verify.Total.{verify_script-NoPanic}

-- The third-party functions that the verification of an input uses.
pub record Library : Type 0 where
  pub encoders : Encoders
  pub curve : Curve
  pub hashes : Hashes
  pub primitives : Primitives

unfoldable pub verify_input :
    Library → Transaction → ℕ → List TxOut → TxPrecomputed → ScriptFlags → Outcome (Unit {0})
verify_input lib tx index prevouts precomputed flags = do
  check (ltb index (length tx.inputs))
  check (length prevouts == length tx.inputs)
  input ← expect (get_elem? tx.inputs index)
  prevout ← expect (get_elem? prevouts index)
  checker ← tx_sig_checker_new tx index prevouts precomputed
  let rules : Rules = record {
    flags = flags;
    checker = checker_of lib.encoders lib.curve checker;
    hashes = lib.hashes;
    primitives = lib.primitives;
  }
  verify_script rules input.script_sig prevout.script_pubkey input.witness

-- What is relied on of the third-party functions: an encoding writes a byte at least, the digests
-- have their lengths, and a `VarInt` has nine bytes at most.
pub record LibrarySafe (lib : Library) : Type 0 where
  pub encoders_ok : Writes lib.encoders
  pub hashes_ok : HashesSafe lib.hashes
  pub var_int_ok :
      (n : ℕ) → (1 ≤ length (lib.primitives.var_int n)) × (length (lib.primitives.var_int n) ≤ 9)

-- The flag order that `verify_script` asserts.
pub record IsFlags (flags : ScriptFlags) : Type 0 where
  pub p2sh_ok : contains flags flag_witness ≡ true → contains flags flag_p2sh ≡ true
  pub witness_ok : contains flags flag_taproot ≡ true → contains flags flag_witness ≡ true

-- An input, of bytes, whose witness items have 10,001 bytes at most.
abbrev pub IsInput : TxIn → Type 0
IsInput input =
    IsBytes input.script_sig
    × (length input.script_sig < 2 ^ 32)
    × All IsWitnessItem input.witness
    × (length input.witness ≤ 2 ^ 32)

abbrev pub IsOutput : TxOut → Type 0
IsOutput output = IsBytes output.script_pubkey × (length output.script_pubkey < 2 ^ 32)

get_elem?-All :
    {A : Type 0} (P : A → Type 0) (xs : List A) (i : ℕ)
    → i < length xs
    → All P xs
    → Safe P (expect (get_elem? xs i))
get_elem?-All P [] i h k = absurd (omega arith)
get_elem?-All P (x ∷ xs) zero h k = k.0
get_elem?-All P (x ∷ xs) (suc i) h k = get_elem?-All P xs i (omega arith) k.1

input-NoPanic :
    (lib : Library) (tx : Transaction) (index : ℕ) (prevouts : List TxOut) (p : TxPrecomputed)
    (flags : ScriptFlags)
    → LibrarySafe lib
    → IsFlags flags
    → index < length tx.inputs
    → length tx.inputs ≤ 2 ^ 32
    → length prevouts ≡ length tx.inputs
    → All IsInput tx.inputs
    → All IsOutput prevouts
    → BuiltFor p tx
    → NoPanic (verify_input lib tx index prevouts p flags)
unfolding verify_input
input-NoPanic lib tx index prevouts p flags hl hf h l hp hi ho hb =
    let done = λ (_ : Unit {0}). Unit {0} in
    Safe-then done (check (ltb index (length tx.inputs))) _ (ground arith) λ _.
      Safe-then done (check (length prevouts == length tx.inputs)) _ (ground (arith, hp)) λ _.
        Safe-bind IsInput done (expect (get_elem? tx.inputs index)) _
          (get_elem?-All IsInput tx.inputs index h hi)
          λ input k.
            Safe-bind IsOutput done (expect (get_elem? prevouts index)) _
              (get_elem?-All IsOutput prevouts index (omega (arith, h, hp)) ho)
              λ prevout o.
                Safe-bind IsChecker done (tx_sig_checker_new tx index prevouts p) _
                  (tx_sig_checker_new-Safe tx index prevouts p h hp hb l)
                  λ c hc.
                    verify_script-NoPanic _ input.script_sig prevout.script_pubkey input.witness
                      (record {
                        checker_ok =
                            checker_of-CheckerSafe lib.encoders lib.curve c hl.encoders_ok hc;
                        hashes_ok = hl.hashes_ok;
                        var_int_ok = hl.var_int_ok;
                        p2sh_ok = hf.p2sh_ok;
                        witness_ok = hf.witness_ok;
                      })
                      k.0 k.1 o.0 o.1 k.2 k.3

-- Verifying any input of a transaction, with what `TxPrecomputed::new` made of it, ends with a
-- verdict and no failed assertion: for 1 to 2^32 inputs, one spent output for each, scripts of
-- bytes shorter than 2^32, 2^32 witness items at most of 10,001 bytes at most, flags in their
-- order, and third-party functions that keep their interface.
pub verify_input-NoPanic :
    (lib : Library) (tx : Transaction) (index : ℕ) (prevouts : List TxOut) (flags : ScriptFlags)
    → LibrarySafe lib
    → IsFlags flags
    → index < length tx.inputs
    → length tx.inputs ≤ 2 ^ 32
    → length prevouts ≡ length tx.inputs
    → All IsInput tx.inputs
    → All IsOutput prevouts
    → NoPanic (do
      precomputed ← tx_precomputed_new lib.encoders tx prevouts
      verify_input lib tx index prevouts precomputed flags)
verify_input-NoPanic lib tx index prevouts flags hl hf h l hp hi ho =
    Safe-bind (λ p. BuiltFor p tx) (λ _. Unit) (tx_precomputed_new lib.encoders tx prevouts) _
      (tx_precomputed_new-Safe lib.encoders hl.encoders_ok tx prevouts (omega (arith, h)) hp)
      λ p hb. input-NoPanic lib tx index prevouts p flags hl hf h l hp hi ho hb
