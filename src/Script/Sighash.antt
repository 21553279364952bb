-- ===== src/Script/Sighash.antt =====
-- crates/consensus/src/script/sighash.rs: the digests that signatures sign. A hash engine is the
-- list of the bytes it was fed.
pub mod Legacy
pub mod Segwit
pub mod Engine
pub mod Safety
pub mod Witness
pub mod Separators
pub mod Stripped
pub mod Segments
pub mod Taproot
use bitmigo.Prelude.{
  ℕ, zero, suc, ◌+◌, ◌-◌, ◌*◌, ◌/◌, ◌%◌, ◌^◌, Bool, true, false, not, ◌&&◌, ◌||◌, List, [], ◌∷◌,
  ◌++◌, Option, none, some, ltb, leb, ◌==◌, if◌then◌else◌, length, get_elem?, replicate, map,
}
use bitmigo.Prelude.Int.{ℤ}
use bitmigo.Script.Error.{
  Outcome, ok, err, panic, ◌>>=◌, ◌>>◌, check, fail_if, schnorr_sig_hashtype,
}
use bitmigo.Script.Num.{Bytes}
use bitmigo.Script.Stack.{expect}
use bitmigo.Script.Opcode.{op_codeseparator}
use bitmigo.Script.Reader.{OpRead, whole, truncated, slice, read_op}
use bitmigo.Script.Machine.{TaprootSpend, key_path, tapscript_leaf, is_annex}

abbrev pub sighash_default : ℕ
sighash_default = 0x00

abbrev pub sighash_all : ℕ
sighash_all = 0x01

abbrev pub sighash_none : ℕ
sighash_none = 0x02

abbrev pub sighash_single : ℕ
sighash_single = 0x03

abbrev pub uint256_one : Bytes
uint256_one = 1 ∷ replicate 31 0

abbrev pub zero_hash : Bytes
zero_hash = replicate 32 0

-- The transactions of the `bitcoin` crate.
pub record OutPoint : Type 0 where
  pub txid : Bytes
  pub vout : ℕ

pub record TxIn : Type 0 where
  pub previous_output : OutPoint
  pub script_sig : Bytes
  pub sequence : ℕ
  pub witness : List Bytes

pub record TxOut : Type 0 where
  pub value : ℕ
  pub script_pubkey : Bytes

pub record Transaction : Type 0 where
  pub version : ℤ
  pub inputs : List TxIn
  pub outputs : List TxOut
  pub lock_time : ℕ

-- The `bitcoin` crate's consensus encodings, and its hashes.
pub record Encoders : Type 0 where
  pub version : ℤ → Bytes
  pub out_point : OutPoint → Bytes
  pub tx_out : TxOut → Bytes
  pub null_tx_out : Bytes
  pub amount : ℕ → Bytes
  pub script : Bytes → Bytes
  pub sequence : ℕ → Bytes
  pub lock_time : ℕ → Bytes
  pub u32 : ℕ → Bytes
  pub var_int : ℕ → Bytes
  pub sha256 : Bytes → Bytes
  pub sha256d : Bytes → Bytes
  pub tap_sighash : Bytes → Bytes

-- `encode`: what is written is not empty.
abbrev pub encode_into : Bytes → Bytes → Outcome Bytes
encode_into engine value = do check (not (length value == 0)); ok (engine ++ value)

-- `encode` of each item in turn.
unfoldable pub encode_each : Bytes → List Bytes → Outcome Bytes
encode_each engine [] = ok engine
encode_each engine (item ∷ items) = do engine' ← encode_into engine item; encode_each engine' items

abbrev pub sha256_each : Encoders → List Bytes → Outcome Bytes
sha256_each e items = do engine ← encode_each [] items; ok (e.sha256 engine)

abbrev pub sha256d_each : Encoders → List Bytes → Outcome Bytes
sha256d_each e items = do digest ← sha256_each e items; ok (e.sha256 digest)

-- The txid, which only debug builds look at, is left out.
pub record TxPrecomputed : Type 0 where
  pub input_count : ℕ
  pub output_count : ℕ
  pub hash_prevouts : Bytes
  pub hash_sequence : Bytes
  pub hash_outputs : Bytes
  pub sha_prevouts : Bytes
  pub sha_amounts : Bytes
  pub sha_scriptpubkeys : Bytes
  pub sha_sequences : Bytes
  pub sha_outputs : Bytes

unfoldable pub tx_precomputed_new : Encoders → Transaction → List TxOut → Outcome TxPrecomputed
tx_precomputed_new e tx prevouts = do
  check (not (length tx.inputs == 0))
  check (length prevouts == length tx.inputs)
  sha_prevouts ← sha256_each e (map (λ (i : TxIn). e.out_point i.previous_output) tx.inputs)
  sha_sequences ← sha256_each e (map (λ (i : TxIn). e.sequence i.sequence) tx.inputs)
  sha_outputs ← sha256_each e (map e.tx_out tx.outputs)
  sha_amounts ← sha256_each e (map (λ (o : TxOut). e.amount o.value) prevouts)
  sha_scriptpubkeys ← sha256_each e (map (λ (o : TxOut). e.script o.script_pubkey) prevouts)
  ok (record {
    input_count = length tx.inputs;
    output_count = length tx.outputs;
    hash_prevouts = e.sha256 sha_prevouts;
    hash_sequence = e.sha256 sha_sequences;
    hash_outputs = e.sha256 sha_outputs;
    sha_prevouts = sha_prevouts;
    sha_amounts = sha_amounts;
    sha_scriptpubkeys = sha_scriptpubkeys;
    sha_sequences = sha_sequences;
    sha_outputs = sha_outputs;
  })

abbrev pub assert_built_for : TxPrecomputed → Transaction → Outcome (Unit {0})
assert_built_for p tx = do
  check (length tx.inputs == p.input_count)
  check (length tx.outputs == p.output_count)

pub record EcdsaHashMode : Type 0 where
  pub anyone_can_pay : Bool
  pub single : Bool
  pub none_mode : Bool

-- `hash_type & 0x80 != 0`
abbrev pub has_anyone_can_pay : ℕ → Bool
has_anyone_can_pay hash_type = hash_type / 0x80 % 2 == 1

unfoldable pub from_hash_type : ℕ → Outcome EcdsaHashMode
from_hash_type hash_type = do
  let output_mode = hash_type % 0x20
  let single = output_mode == sighash_single
  let none_mode = output_mode == sighash_none
  check (not (single && none_mode))
  ok (record {
    anyone_can_pay = has_anyone_can_pay hash_type;
    single = single;
    none_mode = none_mode;
  })
