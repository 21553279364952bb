-- ===== src/Script/Tests/World.antt =====
-- A signature checker, hash functions and environments for the tests, with their laws.
use bitmigo.Prelude.{
  ℕ, zero, suc, ◌≡◌, refl, Bool, ltb, leb, ◌&&◌, true, false, ◌==◌, [], ◌∷◌, length, arith, none,
  some,
}
use bitmigo.Prelude.Int.{pos}
use bitmigo.Script.Error.{ok}
use bitmigo.Script.Taproot.{Primitives}
use bitmigo.Script.Num.{Bytes}
use bitmigo.Script.Num.Value.{IsBytes}
use bitmigo.Script.Flags.{mandatory, flags_none}
use bitmigo.Script.Machine.{Checker, CheckerSafe, Hashes, Env, ExecData, Machine, base, tapscript}
use bitmigo.Script.Stack.{Stack}
use bitmigo.Script.Stack.Safety.{IsStack}
use bitmigo.Script.Signatures.Safety.{IsMachine}
use bitmigo.Script.Numeric.Safety.{HashesSafe}

-- Accepts every signature and every lock time.
abbrev pub lenient : Checker
lenient = record {
  check_ecdsa = λ signature pubkey code v. ok true;
  check_schnorr = λ signature pubkey spend annex. ok tt;
  check_locktime = λ n. ok true;
  check_sequence = λ n. ok true;
}

pub lenient-safe : CheckerSafe lenient
lenient-safe = record {
  ecdsa_safe = λ signature pubkey code v h. tt;
  schnorr_safe = λ signature pubkey spend annex h a. tt;
  locktime_safe = λ n h. tt;
  sequence_safe = λ n h. tt;
}

abbrev pub zeros : ℕ → Bytes
zeros zero = []
zeros (suc n) = 0 ∷ zeros n

zeros-IsBytes : (n : ℕ) → IsBytes (zeros n)
zeros-IsBytes zero = tt
zeros-IsBytes (suc n) = (omega arith, zeros-IsBytes n)

abbrev pub zero_hashes : Hashes
zero_hashes = record {
  ripemd160 = λ input. zeros 20;
  sha1 = λ input. zeros 20;
  sha256 = λ input. zeros 32;
  hash160 = λ input. zeros 20;
  hash256 = λ input. zeros 32;
}

pub zero_hashes-safe : HashesSafe zero_hashes
zero_hashes-safe = record {
  ripemd160_item = λ input. (zeros-IsBytes 20, refl);
  sha1_item = λ input. (zeros-IsBytes 20, refl);
  sha256_item = λ input. (zeros-IsBytes 32, refl);
  hash160_item = λ input. (zeros-IsBytes 20, refl);
  hash256_item = λ input. (zeros-IsBytes 32, refl);
}

-- `1 IF 2 ELSE 3 ENDIF 4 ADD HASH160`
abbrev pub sample_script : Bytes
sample_script = 0x51 ∷ 0x63 ∷ 0x52 ∷ 0x67 ∷ 0x53 ∷ 0x68 ∷ 0x54 ∷ 0x93 ∷ 0xa9 ∷ []

-- Every number of the list is a byte.
abbrev pub all_bytes : Bytes → Bool
all_bytes [] = true
all_bytes (b ∷ bs) = ltb b 256 && all_bytes bs

pub all_bytes-IsBytes : (bytes : Bytes) → all_bytes bytes ≡ true → IsBytes bytes
all_bytes-IsBytes [] h = tt
all_bytes-IsBytes (b ∷ bs) h = ground (arith, all_bytes-IsBytes bs)

abbrev pub legacy_env : Bytes → Env
legacy_env script = record {
  script = script;
  flags = mandatory;
  sig_version = base;
  checker = lenient;
  hashes = zero_hashes;
}

abbrev pub sample_env : Env
sample_env = legacy_env sample_script

abbrev pub sample_machine : Stack → Machine
sample_machine stack = record {
  stack = stack;
  altstack = [];
  conditions = record { depth = 0; first_false = none };
  op_count = 0;
  codesep_start = 0;
  exec = record { codesep_pos = 0xffff_ffff; tapscript_exec = none };
}

-- Two keys, a signature, the dummy: `OP_CHECKMULTISIG` 1 of 2.
abbrev pub multisig_stack : Stack
multisig_stack = (2 ∷ []) ∷ (7 ∷ []) ∷ (8 ∷ []) ∷ (1 ∷ []) ∷ (8 ∷ []) ∷ [] ∷ []

-- Every element is a string of bytes of 520 bytes at most.
abbrev all_items : Stack → Bool
all_items [] = true
all_items (item ∷ s) = (all_bytes item && leb (length item) 520) && all_items s

pub all_items-IsStack : (s : Stack) → all_items s ≡ true → IsStack s
all_items-IsStack [] h = tt
all_items-IsStack (item ∷ s) h = (
  record {
    item_bytes = all_bytes-IsBytes item (ground (arith, h));
    item_length = ground (arith, h);
  },
  all_items-IsStack s (ground (arith, h)),
)

-- The invariant of the tests' machine.
pub sample_machine-IsMachine :
    (s : Stack) → all_items s ≡ true → IsMachine sample_env (sample_machine s)
sample_machine-IsMachine s h = record {
  stack_ok = all_items-IsStack s h;
  altstack_ok = tt;
  ops_ok = omega arith;
  separator_ok = omega arith;
  exec_ok = refl;
}

abbrev pub tapscript_exec_data : ExecData
tapscript_exec_data = record {
  codesep_pos = 0xffff_ffff;
  tapscript_exec =
      some (record { leaf_hash = zeros 32; annex = none; validation_weight_left = pos 100 });
}

abbrev pub tapscript_env : Bytes → Env
tapscript_env script = record {
  script = script;
  flags = mandatory;
  sig_version = tapscript;
  checker = lenient;
  hashes = zero_hashes;
}

-- A signature is verified by the key that has the same first byte.
abbrev pub same_first : Bytes → Bytes → Bool
same_first [] key = false
same_first (a ∷ signature) [] = false
same_first (a ∷ signature) (b ∷ key) = a == b

-- No rule is set, so no encoding is checked, and signatures are verified by `same_first`.
abbrev pub strict_env : Env
strict_env = record {
  script = [];
  flags = flags_none;
  sig_version = base;
  checker = record lenient {
    check_ecdsa = λ signature pubkey code v. ok (same_first signature pubkey);
  };
  hashes = zero_hashes;
}

-- Hashes that keep their input, and a curve where everything is a key and every tweak fits.
abbrev pub plain : Primitives
plain = record {
  tap_leaf = λ input. input;
  tap_node = λ input. input;
  tap_tweak_hash = λ input. input;
  var_int = λ n. n ∷ [];
  is_key = λ key. true;
  is_scalar = λ tweak. true;
  tweak_add_check = λ internal output odd tweak. true;
}
