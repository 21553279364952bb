-- ===== src/Script/Error.antt =====
-- crates/consensus/src/script/error.rs, and the outcome of a function that may fail or panic.
use bitmigo.Prelude.{◌≡◌, refl, Bool, true, false, if◌then◌else◌}
use mathlib.Core.Path.{subst}

pub data ScriptError : Type 0 where
  eval_false verify equalverify checkmultisigverify checksigverify numequalverify script_size
        push_size op_count stack_size sig_count pubkey_count bad_opcode disabled_opcode
        invalid_stack_operation invalid_altstack_operation op_return unbalanced_conditional
        negative_locktime unsatisfied_locktime sig_der sig_pushonly sig_nulldummy cleanstack
        witness_program_wrong_length witness_program_witness_empty witness_program_mismatch
        witness_malleated witness_malleated_p2sh witness_unexpected schnorr_sig_size
        schnorr_sig_hashtype schnorr_sig taproot_wrong_control_size tapscript_validation_weight
        tapscript_checkmultisig tapscript_minimalif tapscript_empty_pubkey scriptnum :
      ScriptError

-- `Result<A, ScriptError>`, with `panic` for a failed `assert!` or `expect`.
pub data Outcome {ℓ} (A : Type ℓ) : Type ℓ where
  ok : A → Outcome A
  err : ScriptError → Outcome A
  panic : Outcome A

-- A later step runs only on a value.
abbrev pub ◌>>=◌ {ℓ κ} : {A : Type ℓ} {B : Type κ} → Outcome A → (A → Outcome B) → Outcome B
panic >>= next = panic
err e >>= next = err e
ok value >>= next = next value

abbrev pub ◌>>◌ {κ} : {B : Type κ} → Outcome (Unit {0}) → Outcome B → Outcome B
first >> second = first >>= λ done. second

infixl 5 ◌>>=◌ ◌>>◌
-- `assert!(b)`
abbrev pub check : Bool → Outcome (Unit {0})
check true = ok tt
check false = panic

-- `if b { return Err(e) }` is `fail_if b e`.
abbrev pub fail_if : Bool → ScriptError → Outcome (Unit {0})
fail_if true e = err e
fail_if false e = ok tt

-- The outcome is a value with `P`, or an error: not a panic.
abbrev pub Safe {ℓ} : {A : Type ℓ} → (A → Type 0) → Outcome A → Type 0
Safe P (ok a) = P a
Safe P (err e) = Unit
Safe P panic = ⊥

module _ {ℓ} {A : Type ℓ} where
  pub Safe-value : (P : A → Type 0) {a : A} {o : Outcome A} → Safe P o → o ≡ ok a → P a
  Safe-value P h e = subst (Safe P) e h

  pub Safe-ne-panic : (P : A → Type 0) {o : Outcome A} → Safe P o → ¬ (o ≡ panic)
  Safe-ne-panic P h e = subst (Safe P) e h

  pub Safe-mono : (P Q : A → Type 0) (o : Outcome A) → ((a : A) → P a → Q a) → Safe P o → Safe Q o
  Safe-mono P Q (ok a) f h = f a h
  Safe-mono P Q (err e) f h = tt
  Safe-mono P Q panic f h = h

  pub Safe-if :
      (P : A → Type 0) (b : Bool) (x y : Outcome A)
      → (b ≡ true → Safe P x)
      → (b ≡ false → Safe P y)
      → Safe P (if b then x else y)
  Safe-if P true x y hx hy = hx refl
  Safe-if P false x y hx hy = hy refl

module _ {ℓ κ} {A : Type ℓ} {B : Type κ} where
  pub Safe-bind :
      (P : A → Type 0) (Q : B → Type 0) (o : Outcome A) (f : A → Outcome B)
      → Safe P o
      → ((a : A) → P a → Safe Q (f a))
      → Safe Q (o >>= f)
  Safe-bind P Q (ok a) f h k = k a h
  Safe-bind P Q (err e) f h k = tt
  Safe-bind P Q panic f h k = h

pub fail_if-Safe : (b : Bool) (e : ScriptError) → Safe (λ _. b ≡ false) (fail_if b e)
fail_if-Safe true e = tt
fail_if-Safe false e = refl

abbrev pub NoPanic {ℓ} : {A : Type ℓ} → Outcome A → Type 0
NoPanic = Safe (λ _. Unit)

-- Where nothing of the first value is needed.
pub Safe-then {ℓ κ} :
    {A : Type ℓ} {B : Type κ} (Q : B → Type 0) (o : Outcome A) (f : A → Outcome B)
    → NoPanic o
    → ((a : A) → Safe Q (f a))
    → Safe Q (o >>= f)
Safe-then Q o f h k = Safe-bind (λ _. Unit) Q o f h (λ a _. k a)

pub NoPanic-of {ℓ} : {A : Type ℓ} (P : A → Type 0) (o : Outcome A) → Safe P o → NoPanic o
NoPanic-of P o h = Safe-mono P (λ _. Unit) o (λ _ _. tt) h

-- The computation gives a result, with the property: it neither fails nor panics.
abbrev pub Returns {ℓ} : {A : Type ℓ} → (A → Type 0) → Outcome A → Type 0
Returns P (ok a) = P a
Returns P (err e) = ⊥
Returns P panic = ⊥

pub Returns→Safe {ℓ} : {A : Type ℓ} (P : A → Type 0) (o : Outcome A) → Returns P o → Safe P o
Returns→Safe P (ok a) h = h
Returns→Safe P (err e) h = tt
Returns→Safe P panic h = h

pub Returns-mono {ℓ} :
    {A : Type ℓ} (P Q : A → Type 0) (o : Outcome A)
    → ((a : A) → P a → Q a)
    → Returns P o
    → Returns Q o
Returns-mono P Q (ok a) k h = k a h
Returns-mono P Q (err e) k h = h
Returns-mono P Q panic k h = h

pub Returns-if {ℓ} :
    {A : Type ℓ} (P : A → Type 0) (b : Bool) (x y : Outcome A)
    → (b ≡ true → Returns P x)
    → (b ≡ false → Returns P y)
    → Returns P (if b then x else y)
Returns-if P true x y hx hy = hx refl
Returns-if P false x y hx hy = hy refl

pub Returns-bind {ℓ κ} :
    {A : Type ℓ} {B : Type κ} (P : A → Type 0) (Q : B → Type 0) (o : Outcome A) (f : A → Outcome B)
    → Returns P o
    → ((a : A) → P a → Returns Q (f a))
    → Returns Q (o >>= f)
Returns-bind P Q (ok a) f h k = k a h
Returns-bind P Q (err e) f h k = h
Returns-bind P Q panic f h k = h
