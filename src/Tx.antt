-- ===== src/Tx.antt =====
-- crates/consensus/src/tx.rs: the rules of one transaction on values and lock times. The coin's
-- outpoint and whether a transaction is a coinbase are as the `bitcoin` crate has them.
pub mod Values
pub mod Locks
mod Tests
use bitmigo.Prelude.{
  ℕ, ◌+◌, ◌-◌, ◌*◌, ◌/◌, ◌%◌, ◌^◌, Bool, true, false, not, ◌&&◌, ◌||◌, List, [], ◌∷◌, Option, none,
  some, ltb, leb, ◌==◌, if◌then◌else◌, length,
}
use bitmigo.Prelude.Int.{ℤ, pos, negsuc, ◌-ℤ◌, ltb_ℤ}
use bitmigo.Script.Error.{Outcome, ok, panic, ◌>>=◌, ◌>>◌, check}
use bitmigo.Script.Stack.{expect}
use bitmigo.Script.StackOps.{bytes_eq}
use bitmigo.Script.Sighash.{OutPoint, TxIn, TxOut, Transaction}
use bitmigo.Script.Checker.{cast_unsigned}

abbrev pub max_money : ℕ
max_money = 21_000_000 * 100_000_000

abbrev pub coinbase_maturity : ℕ
coinbase_maturity = 100

abbrev pub sequence_locktime_granularity : ℕ
sequence_locktime_granularity = 9

-- `Result`, where a panic is the outcome's.
pub data Verdict (E : Type 0) (A : Type 0) : Type 0 where
  accept : A → Verdict E A
  reject : E → Verdict E A

-- The errors of `check_output_values`, with the output's index.
pub data TxError : Type 0 where
  vout_negative : ℕ → TxError
  vout_too_large : ℕ → TxError
  tx_out_total_too_large : ℕ → TxError

pub data TxInputsError : Type 0 where
  premature_coinbase_spend : ℕ → ℕ → TxInputsError
  input_values_out_of_range : ℕ → TxInputsError
  in_below_out : ℕ → ℕ → TxInputsError

pub record Coin : Type 0 where
  pub outpoint : OutPoint
  pub output : TxOut
  pub height : ℕ
  pub coinbase : Bool

abbrev pub outpoint_eq : OutPoint → OutPoint → Bool
outpoint_eq a b = bytes_eq a.txid b.txid && a.vout == b.vout

-- The loop of `check_output_values`, from an index and a running sum.
unfoldable pub output_values : ℕ → ℕ → List TxOut → Outcome (Verdict TxError (Unit {0}))
output_values index total [] = do check (leb total max_money); ok (accept tt)
output_values index total (output ∷ outputs) =
    let rest = output_values (index + 1) (total + output.value) outputs in
    if leb (2 ^ 63) output.value
    then ok (reject (vout_negative index))
    else if ltb max_money output.value
    then ok (reject (vout_too_large index))
    else if ltb max_money (total + output.value)
    then ok (reject (tx_out_total_too_large index))
    else rest

unfoldable pub check_output_values : Transaction → Outcome (Verdict TxError (Unit {0}))
check_output_values tx = do check (not (length tx.outputs == 0)); output_values 0 0 tx.outputs

-- The loop of `value_out`.
unfoldable pub sum_outputs : ℕ → List TxOut → Outcome ℕ
sum_outputs total [] = ok total
sum_outputs total (output ∷ outputs) = do
  check (leb (total + output.value) max_money)
  sum_outputs (total + output.value) outputs

unfoldable pub value_out : Transaction → Outcome ℕ
value_out tx = sum_outputs 0 tx.outputs

-- Whether a coinbase's coin is too young.
abbrev pub is_premature : Coin → ℕ → Bool
is_premature coin spend_height = coin.coinbase && ltb (spend_height - coin.height) coinbase_maturity

-- The loop of `check_tx_inputs`, over the inputs and their coins.
unfoldable pub input_values : ℕ → ℕ → List TxIn → List Coin → ℕ → Outcome (Verdict TxInputsError ℕ)
input_values index value_in (input ∷ inputs) (coin ∷ coins) spend_height =
    let rest = input_values (index + 1) (value_in + coin.output.value) inputs coins spend_height in
    check (outpoint_eq coin.outpoint input.previous_output)
    >> (check (leb coin.height spend_height)
        >> (if is_premature coin spend_height
            then ok (reject (premature_coinbase_spend index (spend_height - coin.height)))
            else if ltb max_money coin.output.value
            then ok (reject (input_values_out_of_range index))
            else if ltb max_money (value_in + coin.output.value)
            then ok (reject (input_values_out_of_range index))
            else rest))
input_values index value_in inputs coins spend_height = ok (accept value_in)

-- What follows the loop: the fee.
abbrev pub fee_of : Transaction → Verdict TxInputsError ℕ → Outcome (Verdict TxInputsError ℕ)
fee_of tx (reject e) = ok (reject e)
fee_of tx (accept value_in) = do
  paid ← value_out tx
  if ltb value_in paid
      then ok (reject (in_below_out value_in paid))
      else (do check (leb (value_in - paid) max_money); ok (accept (value_in - paid)))

-- The first argument is the `bitcoin` crate's `is_coinbase`.
unfoldable pub check_tx_inputs :
    (Transaction → Bool) → Transaction → List Coin → ℕ → Outcome (Verdict TxInputsError ℕ)
check_tx_inputs is_coinbase tx coins spend_height = do
  check (not (is_coinbase tx))
  check (length coins == length tx.inputs)
  verdict ← input_values 0 0 tx.inputs coins spend_height
  fee_of tx verdict

pub record RelativeLockBase : Type 0 where
  pub height : ℕ
  pub median_time_past : Option ℕ

unfoldable pub bip68_applies : Transaction → Bool
bip68_applies tx = leb 2 (cast_unsigned tx.version)

-- The last invalid height, and the last invalid time; -1 is none.
pub record LockMins : Type 0 where
  pub height_min : ℤ
  pub time_min : ℤ

abbrev pub max_ℤ : ℤ → ℤ → ℤ
max_ℤ a b = if ltb_ℤ a b then b else a

-- One input's lock. The value is below 2^16, as the source asserts, since it is a remainder.
unfoldable pub lock_input : LockMins → ℕ → RelativeLockBase → Outcome LockMins
lock_input mins sequence lock_base =
    if sequence / 2 ^ 31 % 2 == 1
    then ok mins
    else if sequence / 2 ^ 22 % 2 == 1
    then (do
      coin_time ← expect lock_base.median_time_past
      let lock = pos (coin_time + sequence % 2 ^ 16 * 2 ^ sequence_locktime_granularity) -ℤ pos 1
      ok (record mins { time_min = max_ℤ mins.time_min lock }))
    else (let lock = pos (lock_base.height + sequence % 2 ^ 16) -ℤ pos 1 in
        ok (record mins { height_min = max_ℤ mins.height_min lock }))

unfoldable pub lock_inputs : LockMins → List TxIn → List RelativeLockBase → Outcome LockMins
lock_inputs mins (input ∷ inputs) (lock_base ∷ bases) = do
  mins' ← lock_input mins input.sequence lock_base
  lock_inputs mins' inputs bases
lock_inputs mins inputs bases = ok mins

-- The block's rules, height and median time past, of `Context`.
unfoldable pub sequence_locks_satisfied :
    Transaction → List RelativeLockBase → Bool → ℕ → ℕ → Outcome Bool
sequence_locks_satisfied tx bases csv_active height median_time_past = do
  check (length bases == length tx.inputs)
  if not (bip68_applies tx) || not csv_active then ok true else do
    mins ← lock_inputs (record { height_min = negsuc 0; time_min = negsuc 0 }) tx.inputs bases
    ok (ltb_ℤ mins.height_min (pos height) && ltb_ℤ mins.time_min (pos median_time_past))
