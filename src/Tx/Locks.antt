-- ===== src/Tx/Locks.antt =====
-- tx.rs: relative lock times, BIP68.
use bitmigo.Prelude.{
  ℕ, suc, ◌+◌, ◌*◌, ◌/◌, ◌%◌, ◌^◌, ◌≤◌, ◌≡◌, ◌↔◌, refl, ap, ◌⊎◌, Bool, true, false, not, ◌&&◌, ◌||◌,
  List, [], ◌∷◌, Option, none, some, leb, ◌==◌, length, arith,
}
use bitmigo.Prelude.Int.{ℤ, pos, negsuc, ◌-ℤ◌, ltb_ℤ}
use bitmigo.Script.Error.{ok, check, Returns, Returns-bind, Returns-if, Returns-mono}
use bitmigo.Script.Sighash.{TxIn, Transaction}
use bitmigo.Script.Checker.{cast_unsigned}
use bitmigo.Tx.{
  RelativeLockBase, LockMins, max_ℤ, lock_input, lock_inputs, sequence_locks_satisfied,
  bip68_applies,
}

-- A lock that starts at a known time is over.
abbrev pub Reached : Option ℕ → ℕ → ℕ → Type 0
Reached none wait time = ⊥
Reached (some start) wait time = start + wait ≤ time

-- One input's lock, as BIP68 has it: opted out, or blocks, or units of 512 seconds, counted from the
-- coin to the block at `height` whose parent's median time past is `time`.
abbrev pub Unlocked : ℕ → ℕ → ℕ → RelativeLockBase → Type 0
Unlocked height time sequence lock_base =
    (sequence / 2 ^ 31 % 2 ≡ 1)
    ⊎ (((sequence / 2 ^ 22 % 2 ≡ 0) × (lock_base.height + sequence % 2 ^ 16 ≤ height))
        ⊎ ((sequence / 2 ^ 22 % 2 ≡ 1)
            × Reached lock_base.median_time_past (sequence % 2 ^ 16 * 512) time))

abbrev pub is_known : Option ℕ → Bool
is_known none = false
is_known (some start) = true

-- An input that counts time, which a set bit 31 opts out of, has a known time.
abbrev pub HasTime : ℕ → Option ℕ → Type 0
HasTime sequence o = sequence / 2 ^ 31 % 2 ≡ 0 → sequence / 2 ^ 22 % 2 ≡ 1 → is_known o ≡ true

-- The two minima are below the block's height and time.
abbrev passes : ℕ → ℕ → LockMins → Bool
passes height time mins = ltb_ℤ mins.height_min (pos height) && ltb_ℤ mins.time_min (pos time)

max_lock :
    (a : ℤ) (n h : ℕ) → ltb_ℤ (max_ℤ a (pos n -ℤ pos 1)) (pos h) ≡ (ltb_ℤ a (pos h) && leb n h)
unfolding ◌-ℤ◌
max_lock (pos a) n h = ground arith
max_lock (negsuc a) n h = ground arith

-- One input adds its own condition.
abbrev Adds : ℕ → ℕ → LockMins → Type 0 → LockMins → Type 0
Adds height time mins condition r =
    (passes height time r ≡ true) ↔ ((passes height time mins ≡ true) × condition)

lock_input-Unlocked :
    (height time : ℕ) (mins : LockMins) (sequence : ℕ) (lock_base : RelativeLockBase)
    → HasTime sequence lock_base.median_time_past
    → Returns
        (Adds height time mins (Unlocked height time sequence lock_base))
        (lock_input mins sequence lock_base)
unfolding lock_input
lock_input-Unlocked height time mins sequence lock_base h =
    go lock_base.height lock_base.median_time_past h
  where
    go :
        (start : ℕ) (o : Option ℕ)
        → HasTime sequence o
        → Returns
            (Adds height time mins
              (Unlocked height time sequence (record { height = start; median_time_past = o })))
            (lock_input mins sequence (record { height = start; median_time_past = o }))
    go start none k = ground (arith, k, max_lock mins.height_min (start + sequence % 2 ^ 16) height)
    go start (some t) k = ground (
      arith,
      max_lock mins.height_min (start + sequence % 2 ^ 16) height,
      max_lock mins.time_min (t + sequence % 2 ^ 16 * 512) time,
    )

-- One base for each input, with a time where the input counts time.
abbrev pub AreBasesOf : List TxIn → List RelativeLockBase → Type 0
AreBasesOf [] [] = Unit
AreBasesOf (input ∷ inputs) (lock_base ∷ bases) =
    HasTime input.sequence lock_base.median_time_past × AreBasesOf inputs bases
AreBasesOf inputs bases = ⊥

abbrev pub AllUnlocked : ℕ → ℕ → List TxIn → List RelativeLockBase → Type 0
AllUnlocked height time (input ∷ inputs) (lock_base ∷ bases) =
    Unlocked height time input.sequence lock_base × AllUnlocked height time inputs bases
AllUnlocked height time inputs bases = Unit

lock_inputs-AllUnlocked :
    (height time : ℕ) (inputs : List TxIn) (bases : List RelativeLockBase) (mins : LockMins)
    → AreBasesOf inputs bases
    → Returns
        (Adds height time mins (AllUnlocked height time inputs bases))
        (lock_inputs mins inputs bases)
unfolding lock_inputs
lock_inputs-AllUnlocked height time [] [] mins h = (λ p. (p, tt), λ p. p.0)
lock_inputs-AllUnlocked height time [] (lock_base ∷ bases) mins h = absurd h
lock_inputs-AllUnlocked height time (input ∷ inputs) [] mins h = absurd h
lock_inputs-AllUnlocked height time (input ∷ inputs) (lock_base ∷ bases) mins h =
    Returns-bind (Adds height time mins (Unlocked height time input.sequence lock_base)) _
      (lock_input mins input.sequence lock_base) _
      (lock_input-Unlocked height time mins input.sequence lock_base h.0)
      λ r k.
        Returns-mono (Adds height time r (AllUnlocked height time inputs bases)) _
          (lock_inputs r inputs bases)
          (λ t g. (
            λ p. ((k.0 (g.0 p).0).0, ((k.0 (g.0 p).0).1, (g.0 p).1)),
            λ p. g.1 (k.1 (p.0, p.1.0), p.1.1),
          ))
          (lock_inputs-AllUnlocked height time inputs bases r h.1)

length-bases :
    (inputs : List TxIn) (bases : List RelativeLockBase)
    → AreBasesOf inputs bases
    → length bases ≡ length inputs
length-bases [] [] h = refl
length-bases [] (lock_base ∷ bases) h = absurd h
length-bases (input ∷ inputs) [] h = absurd h
length-bases (input ∷ inputs) (lock_base ∷ bases) h =
    ap (λ (n : ℕ). suc n) (length-bases inputs bases h.1)

-- `sequence_locks_satisfied`, given a base for each input, with a time where the input counts time
-- and does not opt out, always returns, and answers true exactly when every input is unlocked
-- as BIP68 has it, or the version, as an unsigned number, is below 2, or BIP68 is not active.
pub sequence_locks_satisfied_iff :
    (tx : Transaction) (bases : List RelativeLockBase) (csv_active : Bool) (height time : ℕ)
    → AreBasesOf tx.inputs bases
    → Returns
        (λ b. (b ≡ true) ↔ (
          2 ≤ cast_unsigned tx.version
          → csv_active ≡ true
          → AllUnlocked height time tx.inputs bases))
        (sequence_locks_satisfied tx bases csv_active height time)
unfolding sequence_locks_satisfied bip68_applies
sequence_locks_satisfied_iff tx bases csv_active height time h =
    let mins : LockMins = record { height_min = negsuc 0; time_min = negsuc 0 } in
    Returns-bind (λ _. Unit) _ (check (length bases == length tx.inputs)) _
      (ground (arith, length-bases tx.inputs bases h))
      λ _ _.
        Returns-if _ (not (bip68_applies tx) || not csv_active) (ok true) _
          (λ e. (λ t a c. absurd (ground (arith, e, a, c)), λ g. refl))
          λ e.
            Returns-bind (Adds height time mins (AllUnlocked height time tx.inputs bases)) _
              (lock_inputs mins tx.inputs bases) _
              (lock_inputs-AllUnlocked height time tx.inputs bases mins h)
              λ r k. (
                λ t a c. (k.0 t).1,
                λ g. k.1 (ground arith, g (ground (arith, e)) (ground (arith, e))),
              )
