-- ===== src/Script/Tests/Checker.antt =====
-- The properties of checker.rs, sighash.rs and `verify_input` at concrete inputs.
use bitmigo.Prelude.{
  ◌≡◌, ◌≢◌, ◌↔◌, ◌≤◌, ◌-◌, ◌^◌, ◌%◌, ◌/◌, refl, true, some, [], ◌∷◌, length, arith,
}
use bitmigo.Prelude.Int.{pos}
use bitmigo.Script.Error.{ok, ◌>>=◌, NoPanic, Returns}
use bitmigo.Script.Num.{Bytes}
use bitmigo.Script.Flags.{mandatory, contains}
use bitmigo.Script.Machine.{CheckerSafe}
use bitmigo.Script.Sighash.{Encoders, TxIn, TxOut, Transaction, TxPrecomputed, tx_precomputed_new}
use bitmigo.Script.Sighash.Legacy.{legacy_encode_script_code}
use bitmigo.Script.Sighash.Engine.{Writes}
use bitmigo.Script.Sighash.Separators.{IsStripped, script_code-IsStripped}
use bitmigo.Script.Checker.{Curve, TxSigChecker, checker_of, tx_check_locktime, tx_check_sequence}
use bitmigo.Script.Checker.Safety.{checker_of-CheckerSafe}
use bitmigo.Script.Checker.Locks.{SameKind, tx_check_locktime_iff, tx_check_sequence_iff}
use bitmigo.Script.Verify.Input.{Library, LibrarySafe, IsFlags, verify_input, verify_input-NoPanic}
use bitmigo.Script.Tests.World.{zero_hashes, zero_hashes-safe, plain, zeros}

-- One byte for everything, and hashes that keep their input.
abbrev short : Encoders
short = record {
  version = λ v. 1 ∷ [];
  out_point = λ o. o.vout ∷ [];
  tx_out = λ o. o.value ∷ o.script_pubkey;
  null_tx_out = 0 ∷ [];
  amount = λ n. n ∷ [];
  script = λ s. length s ∷ s;
  sequence = λ n. n ∷ [];
  lock_time = λ n. n ∷ [];
  u32 = λ n. n ∷ [];
  var_int = λ n. n ∷ [];
  sha256 = λ bytes. bytes;
  sha256d = λ bytes. bytes;
  tap_sighash = λ bytes. bytes;
}

short-Writes : Writes short
short-Writes = record {
  version_ok = λ v. omega arith;
  out_point_ok = λ o. omega arith;
  tx_out_ok = λ o. omega arith;
  null_ok = omega arith;
  amount_ok = λ n. omega arith;
  script_ok = λ s. omega arith;
  sequence_ok = λ n. omega arith;
  lock_time_ok = λ n. omega arith;
  u32_ok = λ n. omega arith;
  var_int_ok = λ n. omega arith;
}

abbrev trusting : Curve
trusting = record {
  is_pubkey = λ key. true;
  from_der_lax = λ signature. some signature;
  normalize_s = λ signature. signature;
  verify_ecdsa = λ digest signature key. true;
  is_x_only_key = λ key. true;
  verify_schnorr = λ digest signature key. true;
}

-- Spends an output that anyone can spend, with a relative lock of 16 blocks.
abbrev sample_input : TxIn
sample_input = record {
  previous_output = record { txid = zeros 32; vout = 7 };
  script_sig = 0x51 ∷ [];
  sequence = 16;
  witness = [];
}

abbrev sample_output : TxOut
sample_output = record { value = 50; script_pubkey = 0x51 ∷ [] }

abbrev sample_tx : Transaction
sample_tx = record {
  version = pos 2;
  inputs = sample_input ∷ [];
  outputs = sample_output ∷ [];
  lock_time = 900000;
}

abbrev sample_precomputed : TxPrecomputed
sample_precomputed = record {
  input_count = 1;
  output_count = 1;
  hash_prevouts = [];
  hash_sequence = [];
  hash_outputs = [];
  sha_prevouts = [];
  sha_amounts = [];
  sha_scriptpubkeys = [];
  sha_sequences = [];
  sha_outputs = [];
}

abbrev sample_checker : TxSigChecker
sample_checker = record {
  tx = sample_tx;
  index = 0;
  prevouts = sample_output ∷ [];
  precomputed = sample_precomputed;
}

checker_of-CheckerSafe_example : CheckerSafe (checker_of short trusting sample_checker)
checker_of-CheckerSafe_example =
    checker_of-CheckerSafe short trusting sample_checker short-Writes (record {
      index_ok = omega arith;
      prevouts_ok = refl;
      built_ok = (refl, refl);
      inputs_ok = omega arith;
    })

tx_check_locktime_iff_example :
    (tx_check_locktime sample_checker (pos 800000) ≡ ok true)
    ↔ (SameKind 800000 900000 × (800000 ≤ 900000) × (16 ≢ 2 ^ 32 - 1))
tx_check_locktime_iff_example =
    tx_check_locktime_iff sample_checker sample_input 800000 refl (omega arith)

tx_check_sequence_iff_example : (tx_check_sequence sample_checker (pos 9) ≡ ok true) ↔ (
    (2 ≤ 2)
    × (16 / 2 ^ 31 % 2 ≡ 0)
    × (9 / 2 ^ 22 % 2 ≡ 16 / 2 ^ 22 % 2)
    × (9 % 2 ^ 16 ≤ 16 % 2 ^ 16))
tx_check_sequence_iff_example =
    tx_check_sequence_iff sample_checker sample_input 9 refl (omega arith)

-- `1 CODESEPARATOR 2`
abbrev separated : Bytes
separated = 0x51 ∷ 0xab ∷ 0x52 ∷ []

script_code-IsStripped_example :
    Returns (IsStripped short [] separated) (legacy_encode_script_code short [] separated)
script_code-IsStripped_example = script_code-IsStripped short [] separated short-Writes

abbrev sample_library : Library
sample_library = record {
  encoders = short;
  curve = trusting;
  hashes = zero_hashes;
  primitives = plain;
}

sample_library-safe : LibrarySafe sample_library
sample_library-safe = record {
  encoders_ok = short-Writes;
  hashes_ok = zero_hashes-safe;
  var_int_ok = λ n. (omega arith, omega arith);
}

mandatory-IsFlags : IsFlags mandatory
unfolding contains mandatory
mandatory-IsFlags = record { p2sh_ok = λ e. refl; witness_ok = λ e. refl }

verify_input-NoPanic_example : NoPanic (do
  precomputed ← tx_precomputed_new short sample_tx (sample_output ∷ [])
  verify_input sample_library sample_tx 0 (sample_output ∷ []) precomputed mandatory)
verify_input-NoPanic_example =
    verify_input-NoPanic sample_library sample_tx 0 (sample_output ∷ []) mandatory
      sample_library-safe mandatory-IsFlags (omega arith) (omega arith) refl
      (((omega arith, tt), omega arith, tt, omega arith), tt) (((omega arith, tt), omega arith), tt)
