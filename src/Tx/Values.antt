-- ===== src/Tx/Values.antt =====
-- tx.rs: a transaction that passes `check_tx`'s value rules and `check_tx_inputs` makes no money.
use bitmigo.Prelude.{
  ℕ, suc, ◌+◌, ◌≤◌, ◌<◌, ◌≡◌, refl, ap, Bool, true, false, not, List, [], ◌∷◌, ◌==◌, length, arith,
}
use bitmigo.Script.Error.{ok, check, Safe, Safe-bind, Safe-then}
use bitmigo.Script.Sighash.{TxIn, TxOut, Transaction}
use bitmigo.Tx.{
  Verdict, accept, reject, TxError, TxInputsError, Coin, outpoint_eq, output_values,
  check_output_values, sum_outputs, value_out, input_values, fee_of, check_tx_inputs,
}

abbrev pub output_sum : List TxOut → ℕ
output_sum [] = 0
output_sum (output ∷ outputs) = output.value + output_sum outputs

abbrev pub coin_sum : List Coin → ℕ
coin_sum [] = 0
coin_sum (coin ∷ coins) = coin.output.value + coin_sum coins

abbrev Sums : ℕ → Verdict TxError (Unit {0}) → Type 0
Sums n (accept done) = n ≤ 2100000000000000
Sums n (reject e) = 2100000000000000 < n

output_values-Sums :
    (outputs : List TxOut) (index total : ℕ)
    → total ≤ 2100000000000000
    → Safe (Sums (total + output_sum outputs)) (output_values index total outputs)
unfolding output_values
output_values-Sums [] index total h = ground (arith, h)
output_values-Sums (o ∷ outputs) index total h =
    ground (arith, h, output_values-Sums outputs (index + 1) (total + o.value))

sum_outputs-sum :
    (outputs : List TxOut) (total : ℕ)
    → total + output_sum outputs ≤ 2100000000000000
    → sum_outputs total outputs ≡ ok (total + output_sum outputs)
unfolding sum_outputs
sum_outputs-sum [] total h = ap (λ (n : ℕ). ok n) (omega arith)
sum_outputs-sum (o ∷ outputs) total h = ground (arith, h, sum_outputs-sum outputs (total + o.value))

-- A coinbase's coin is 100 blocks deep.
abbrev pub AllMature : List Coin → ℕ → Type 0
AllMature [] height = Unit
AllMature (coin ∷ coins) height =
    (coin.coinbase ≡ true → coin.height + 100 ≤ height) × AllMature coins height

-- Each coin is that of its input, and of no later block.
abbrev pub AreCoinsOf : List TxIn → List Coin → ℕ → Type 0
AreCoinsOf [] [] height = Unit
AreCoinsOf (input ∷ inputs) (coin ∷ coins) height =
    (outpoint_eq coin.outpoint input.previous_output ≡ true)
    × (coin.height ≤ height)
    × AreCoinsOf inputs coins height
AreCoinsOf inputs coins height = ⊥

abbrev Gathered : ℕ → List Coin → ℕ → Verdict TxInputsError ℕ → Type 0
Gathered value_in coins height (accept n) =
    (n ≡ value_in + coin_sum coins) × (n ≤ 2100000000000000) × AllMature coins height
Gathered value_in coins height (reject e) =
    AllMature coins height → 2100000000000000 < value_in + coin_sum coins

input_values-Gathered :
    (inputs : List TxIn) (coins : List Coin) (index value_in height : ℕ)
    → AreCoinsOf inputs coins height
    → value_in ≤ 2100000000000000
    → Safe (Gathered value_in coins height) (input_values index value_in inputs coins height)
unfolding input_values
input_values-Gathered [] [] index value_in height h k = (omega arith, k, tt)
input_values-Gathered [] (coin ∷ coins) index value_in height h k = absurd h
input_values-Gathered (input ∷ inputs) [] index value_in height h k = absurd h
input_values-Gathered (input ∷ inputs) (coin ∷ coins) index value_in height h k = ground (
  arith,
  h.0,
  h.1,
  k,
  input_values-Gathered inputs coins (index + 1) (value_in + coin.output.value) height h.2,
)

abbrev pub Paid : Transaction → List Coin → ℕ → Verdict TxInputsError ℕ → Type 0
Paid tx coins height (accept fee) =
    (output_sum tx.outputs + fee ≡ coin_sum coins)
    × (coin_sum coins ≤ 2100000000000000)
    × AllMature coins height
Paid tx coins height (reject e) =
    AllMature coins height
    → coin_sum coins ≤ 2100000000000000
    → coin_sum coins < output_sum tx.outputs

fee_of-Paid :
    (tx : Transaction) (coins : List Coin) (height : ℕ) (v : Verdict TxInputsError ℕ)
    → output_sum tx.outputs ≤ 2100000000000000
    → Gathered 0 coins height v
    → Safe (Paid tx coins height) (fee_of tx v)
unfolding value_out
fee_of-Paid tx coins height (accept n) l h =
    ground (arith, sum_outputs-sum tx.outputs 0 (omega (arith, l)), h.0, h.1, h.2)
fee_of-Paid tx coins height (reject e) l h = λ m b. absurd (omega (arith, h m, b))

length-coins :
    (inputs : List TxIn) (coins : List Coin) (height : ℕ)
    → AreCoinsOf inputs coins height
    → length coins ≡ length inputs
length-coins [] [] height h = refl
length-coins [] (coin ∷ coins) height h = absurd h
length-coins (input ∷ inputs) [] height h = absurd h
length-coins (input ∷ inputs) (coin ∷ coins) height h =
    ap (λ (n : ℕ). suc n) (length-coins inputs coins height h.2)

accepted_sum :
    (tx : Transaction)
    → check_output_values tx ≡ ok (accept tt)
    → output_sum tx.outputs ≤ 2100000000000000
unfolding check_output_values
accepted_sum tx e = ground (arith, e, output_values-Sums tx.outputs 0 0 (omega arith))

-- After `check_output_values` has accepted it, `check_tx_inputs` of a transaction that is no
-- coinbase, with the coins of its inputs from no later block, fails no assertion. It accepts with a
-- fee that makes outputs and fee the sum of the coins, which is 21 million bitcoin at most and
-- whose coinbase coins are 100 blocks deep, and rejects only when the coins are too young, too
-- valuable or less than the outputs.
pub check_tx_inputs-Paid :
    (is_coinbase : Transaction → Bool) (tx : Transaction) (coins : List Coin) (height : ℕ)
    → is_coinbase tx ≡ false
    → AreCoinsOf tx.inputs coins height
    → check_output_values tx ≡ ok (accept tt)
    → Safe (Paid tx coins height) (check_tx_inputs is_coinbase tx coins height)
unfolding check_tx_inputs
check_tx_inputs-Paid is_coinbase tx coins height c h e =
    let paid = Paid tx coins height in
    let bounded : output_sum tx.outputs ≤ 2100000000000000 = accepted_sum tx e in
    Safe-then paid (check (not (is_coinbase tx))) _ (ground (arith, c)) λ _.
      Safe-then paid (check (length coins == length tx.inputs)) _
        (ground (arith, length-coins tx.inputs coins height h))
        λ _.
          Safe-bind (Gathered 0 coins height) paid (input_values 0 0 tx.inputs coins height) _
            (input_values-Gathered tx.inputs coins 0 0 height h (omega arith))
            λ v k. fee_of-Paid tx coins height v bounded k
