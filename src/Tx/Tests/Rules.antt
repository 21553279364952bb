-- ===== src/Tx/Tests/Rules.antt =====
-- The properties of tx.rs at a concrete transaction.
use bitmigo.Prelude.{◌≤◌, ◌≡◌, ◌↔◌, refl, Bool, true, false, [], ◌∷◌, none, replicate, arith}
use bitmigo.Prelude.Int.{pos}
use bitmigo.Script.Error.{ok, Returns, Safe}
use bitmigo.Script.Sighash.{OutPoint, TxIn, Transaction}
use bitmigo.Script.StackOps.{bytes_eq}
use bitmigo.Tx.{
  accept, Coin, check_output_values, output_values, check_tx_inputs, RelativeLockBase,
  sequence_locks_satisfied,
}
use bitmigo.Tx.Values.{Paid, AreCoinsOf, check_tx_inputs-Paid}
use bitmigo.Tx.Locks.{AllUnlocked, sequence_locks_satisfied_iff}

abbrev spent : OutPoint
spent = record { txid = replicate 32 7; vout = 1 }

-- A relative lock of five blocks.
abbrev spending : TxIn
spending = record { previous_output = spent; script_sig = []; sequence = 5; witness = [] }

abbrev payment : Transaction
payment = record {
  version = pos 2;
  inputs = spending ∷ [];
  outputs =
      record { value = 900; script_pubkey = [] } ∷ record { value = 80; script_pubkey = [] } ∷ [];
  lock_time = 0;
}

abbrev coin : Coin
coin = record {
  outpoint = spent;
  output = record { value = 1000; script_pubkey = [] };
  height = 300;
  coinbase = true;
}

abbrev no_coinbase : Transaction → Bool
no_coinbase tx = false

passed : check_output_values payment ≡ ok (accept tt)
unfolding check_output_values output_values
passed = refl

its_coin : AreCoinsOf payment.inputs (coin ∷ []) 400
unfolding bytes_eq
its_coin = (refl, omega arith, tt)

check_tx_inputs-Paid_example :
    Safe (Paid payment (coin ∷ []) 400) (check_tx_inputs no_coinbase payment (coin ∷ []) 400)
check_tx_inputs-Paid_example =
    check_tx_inputs-Paid no_coinbase payment (coin ∷ []) 400 refl its_coin passed

-- A second input opts out of its lock, and its coin's time is not known.
abbrev opted_out : TxIn
opted_out = record {
  previous_output = record { txid = replicate 32 8; vout = 0 };
  script_sig = [];
  sequence = 0xffffffff;
  witness = [];
}

abbrev two_inputs : Transaction
two_inputs = record payment { inputs = spending ∷ opted_out ∷ [] }

abbrev lock_base : RelativeLockBase
lock_base = record { height = 300; median_time_past = none }

sequence_locks_satisfied_iff_example :
    Returns
      (λ b.
        (b ≡ true)
        ↔ (2 ≤ 2 → true ≡ true → AllUnlocked 400 0 two_inputs.inputs (lock_base ∷ lock_base ∷ [])))
      (sequence_locks_satisfied two_inputs (lock_base ∷ lock_base ∷ []) true 400 0)
sequence_locks_satisfied_iff_example =
    sequence_locks_satisfied_iff two_inputs (lock_base ∷ lock_base ∷ []) true 400 0
      (λ a e. absurd (ground (arith, e)), (λ a e. absurd (ground (arith, a)), tt))
