-- ===== src/Script/Checker/Locks.antt =====
-- The lock times of checker.rs, BIP65 and BIP112.
use bitmigo.Prelude.{
  ℕ, ◌-◌, ◌/◌, ◌%◌, ◌^◌, ◌≤◌, ◌<◌, ◌≡◌, ◌≢◌, ◌↔◌, ◌⊎◌, true, some, get_elem?, arith,
}
use bitmigo.Prelude.Int.{pos}
use bitmigo.Script.Error.{ok}
use bitmigo.Script.Sighash.{TxIn}
use bitmigo.Script.Checker.{TxSigChecker, tx_check_locktime, tx_check_sequence, cast_unsigned}

-- Both are heights, or both are times.
abbrev pub SameKind : ℕ → ℕ → Type 0
SameKind a b = (a < 500000000 × b < 500000000) ⊎ (500000000 ≤ a × 500000000 ≤ b)

-- `tx_check_locktime` of a five-byte operand accepts exactly when the operand and the transaction's
-- lock time are of one kind, height or time, the operand is not beyond it, and the input's sequence
-- is not final (BIP65).
pub tx_check_locktime_iff :
    (c : TxSigChecker) (input : TxIn) (n : ℕ)
    → get_elem? c.tx.inputs c.index ≡ some input
    → n ≤ 2 ^ 39 - 1
    → (tx_check_locktime c (pos n) ≡ ok true)
      ↔ (SameKind n c.tx.lock_time × (n ≤ c.tx.lock_time) × (input.sequence ≢ 2 ^ 32 - 1))
unfolding tx_check_locktime
tx_check_locktime_iff c input n at l = ground (arith, at, l)

-- `tx_check_sequence` of a five-byte operand accepts exactly when the transaction's version, read as
-- unsigned, is 2 or more, the input's sequence is no opt-out (bit 31), its unit bit (bit 22) is the
-- operand's, and the operand's low 16 bits are not beyond the sequence's (BIP112).
pub tx_check_sequence_iff :
    (c : TxSigChecker) (input : TxIn) (n : ℕ)
    → get_elem? c.tx.inputs c.index ≡ some input
    → n ≤ 2 ^ 39 - 1
    → (tx_check_sequence c (pos n) ≡ ok true) ↔ (
        (2 ≤ cast_unsigned c.tx.version)
        × (input.sequence / 2 ^ 31 % 2 ≡ 0)
        × (n / 2 ^ 22 % 2 ≡ input.sequence / 2 ^ 22 % 2)
        × (n % 2 ^ 16 ≤ input.sequence % 2 ^ 16))
unfolding tx_check_sequence
tx_check_sequence_iff c input n at l = ground (arith, at, l)
