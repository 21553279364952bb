-- ===== src/Script/Machine.antt =====
-- The state of one script execution, crates/consensus/src/script/interpreter.rs: the structs
-- `TapscriptExec`, `ExecData` and `Machine`, and what the machine borrows: the transaction's
-- signature checker (checker.rs) behind an interface, and the hash functions of the `bitcoin`
-- crate, which are no code of the repository, as parameters.
use bitmigo.Prelude.{
  ℕ, ◌+◌, ◌-◌, ◌^◌, ◌≤◌, ◌≡◌, ◌≢◌, Bool, Option, none, some, length, [], ◌∷◌, ◌==◌,
}
use bitmigo.Prelude.Int.{ℤ, pos}
use bitmigo.Script.Error.{Outcome, Safe}
use bitmigo.Script.Num.{Bytes}
use bitmigo.Script.Stack.{Stack}
use bitmigo.Script.Flags.{ScriptFlags}
use bitmigo.Script.Conditions.{ConditionStack}

pub data SigVersion : Type 0 where
  base witness_v0 tapscript : SigVersion

abbrev pub is_tapscript : SigVersion → Bool
is_tapscript base = Bool.false
is_tapscript witness_v0 = Bool.false
is_tapscript tapscript = Bool.true

abbrev pub is_base : SigVersion → Bool
is_base base = Bool.true
is_base witness_v0 = Bool.false
is_base tapscript = Bool.false

-- sighash.rs
pub data TaprootSpend : Type 0 where
  key_path : TaprootSpend
  tapscript_leaf : Bytes → ℕ → TaprootSpend

abbrev pub annex_tag : ℕ
annex_tag = 0x50

-- `last.first() == Some(&ANNEX_TAG)`
abbrev pub is_annex : Bytes → Bool
is_annex [] = Bool.false
is_annex (first ∷ rest) = first == annex_tag

-- What is passed on as an annex is one.
abbrev pub IsAnnex : Option Bytes → Type 0
IsAnnex none = Unit
IsAnnex (some annex) = is_annex annex ≡ Bool.true

-- The four questions of `TxSigChecker`.
pub record Checker : Type 0 where
  pub check_ecdsa : Bytes → Bytes → Bytes → SigVersion → Outcome Bool
  pub check_schnorr : Bytes → Bytes → TaprootSpend → Option Bytes → Outcome (Unit {0})
  pub check_locktime : ℤ → Outcome Bool
  pub check_sequence : ℤ → Outcome Bool

-- What the interpreter may ask without a panic.
pub record CheckerSafe (c : Checker) : Type 0 where
  pub ecdsa_safe :
      (signature pubkey script_code : Bytes) (v : SigVersion)
      → v ≢ tapscript
      → Safe (λ _. Unit) (c.check_ecdsa signature pubkey script_code v)
  pub schnorr_safe :
      (signature pubkey : Bytes) (spend : TaprootSpend) (annex : Option Bytes)
      → length pubkey ≡ 32
      → IsAnnex annex
      → Safe (λ _. Unit) (c.check_schnorr signature pubkey spend annex)
  pub locktime_safe : (n : ℕ) → n ≤ 2 ^ 39 - 1 → Safe (λ _. Unit) (c.check_locktime (pos n))
  pub sequence_safe : (n : ℕ) → n ≤ 2 ^ 39 - 1 → Safe (λ _. Unit) (c.check_sequence (pos n))

pub record Hashes : Type 0 where
  pub ripemd160 : Bytes → Bytes
  pub sha1 : Bytes → Bytes
  pub sha256 : Bytes → Bytes
  pub hash160 : Bytes → Bytes
  pub hash256 : Bytes → Bytes

pub record TapscriptExec : Type 0 where
  pub leaf_hash : Bytes
  pub annex : Option Bytes
  pub validation_weight_left : ℤ

pub record ExecData : Type 0 where
  pub codesep_pos : ℕ
  pub tapscript_exec : Option TapscriptExec

abbrev pub codeseparator_pos_none : ℕ
codeseparator_pos_none = 0xffff_ffff

unfoldable pub exec_legacy : ExecData
exec_legacy = record { codesep_pos = codeseparator_pos_none; tapscript_exec = none }

unfoldable pub exec_tapscript : TapscriptExec → ExecData
exec_tapscript exec = record { codesep_pos = codeseparator_pos_none; tapscript_exec = some exec }

-- The fields of `Machine` that one execution does not change, and the hash functions.
pub record Env : Type 0 where
  pub script : Bytes
  pub flags : ScriptFlags
  pub sig_version : SigVersion
  pub checker : Checker
  pub hashes : Hashes

-- The fields of `Machine` that it does change.
pub record Machine : Type 0 where
  pub stack : Stack
  pub altstack : Stack
  pub conditions : ConditionStack
  pub op_count : ℕ
  pub codesep_start : ℕ
  pub exec : ExecData

abbrev pub max_script_size : ℕ
max_script_size = 10000

abbrev pub max_stack_size : ℕ
max_stack_size = 1000

abbrev pub max_ops_per_script : ℕ
max_ops_per_script = 201

abbrev pub max_pubkeys_per_multisig : ℕ
max_pubkeys_per_multisig = 20

abbrev pub validation_weight_per_sigop_passed : ℕ
validation_weight_per_sigop_passed = 50

abbrev pub op_count_max : ℕ
op_count_max = 201 + 20
