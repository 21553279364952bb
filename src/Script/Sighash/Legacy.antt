-- ===== src/Script/Sighash/Legacy.antt =====
-- crates/consensus/src/script/sighash.rs: the legacy digest, before segwit.
use bitmigo.Prelude.{
  ℕ, zero, suc, ◌+◌, ◌-◌, not, ◌&&◌, ◌||◌, List, [], ◌∷◌, ◌++◌, ltb, leb, ◌==◌, if◌then◌else◌,
  length, get_elem?,
}
use bitmigo.Script.Error.{Outcome, ok, panic, ◌>>=◌, ◌>>◌, check}
use bitmigo.Script.Num.{Bytes}
use bitmigo.Script.Stack.{expect}
use bitmigo.Script.Opcode.{op_codeseparator}
use bitmigo.Script.Reader.{OpRead, whole, truncated, slice, read_op}
use bitmigo.Script.Sighash.{
  EcdsaHashMode, Encoders, Transaction, TxOut, encode_into, from_hash_type, uint256_one,
}

-- One opcode of the loop that counts the separators.
abbrev pub count_step : (ℕ → ℕ → Outcome ℕ) → ℕ → ℕ → OpRead → Outcome ℕ
count_step continue_at position count (truncated next) = ok count
count_step continue_at position count (whole opcode next) = do
  check (ltb position next)
  continue_at next (if opcode == op_codeseparator then count + 1 else count)

-- The first loop. A round reads a byte at least.
unfoldable pub count_separators : ℕ → Bytes → ℕ → ℕ → Outcome ℕ
count_separators zero script position count = panic
count_separators (suc fuel) script position count =
    if leb (length script) position then ok count else do
      step ← read_op script position
      count_step (λ next count'. count_separators fuel script next count') position count step

-- The engine, `segment_start` and `position`.
pub record Segments : Type 0 where
  pub engine : Bytes
  pub segment_start : ℕ
  pub position : ℕ

-- One opcode of the loop that writes the segments between the separators.
abbrev pub segment_step :
    (Segments → Outcome Segments) → Bytes → Segments → OpRead → Outcome Segments
segment_step continue_with script s (truncated next) = ok (record s { position = next })
segment_step continue_with script s (whole opcode next) = do
  check (ltb s.position next)
  if opcode == op_codeseparator
      then (do
        segment ← expect (slice script s.segment_start (next - 1))
        continue_with
            (record { engine = s.engine ++ segment; segment_start = next; position = next }))
      else continue_with (record s { position = next })

-- The second loop.
unfoldable pub write_segments : ℕ → Bytes → Segments → Outcome Segments
write_segments zero script s = panic
write_segments (suc fuel) script s = if leb (length script) s.position then ok s else do
  step ← read_op script s.position
  segment_step (λ s'. write_segments fuel script s') script s step

-- The last segment.
unfoldable pub finish_segments : Bytes → Segments → Outcome Bytes
finish_segments script s = if s.segment_start == length script then ok s.engine else do
  check (leb s.segment_start s.position)
  segment ← expect (slice script s.segment_start s.position)
  ok (s.engine ++ segment)

unfoldable pub legacy_encode_script_code : Encoders → Bytes → Bytes → Outcome Bytes
legacy_encode_script_code e engine script = do
  separator_count ← count_separators (suc (length script)) script 0 0
  check (leb separator_count (length script))
  engine' ← encode_into engine (e.var_int (length script - separator_count))
  s ←
      write_segments (suc (length script)) script
        (record { engine = engine'; segment_start = 0; position = 0 })
  finish_segments script s

unfoldable pub legacy_encode_input :
    Encoders → Bytes → Transaction → ℕ → ℕ → Bytes → EcdsaHashMode → Outcome Bytes
legacy_encode_input e engine tx signed_index input_index script_code mode = do
  input ← expect (get_elem? tx.inputs input_index)
  engine₁ ← encode_into engine (e.out_point input.previous_output)
  engine₂ ←
      (if input_index == signed_index
        then legacy_encode_script_code e engine₁ script_code
        else encode_into engine₁ (e.var_int 0))
  encode_into engine₂ (
      if not (input_index == signed_index) && (mode.single || mode.none_mode)
      then e.u32 0
      else e.sequence input.sequence)

-- `for input_index in 0..tx.input.len()`, from `input_index` with `remaining` to go.
unfoldable pub legacy_encode_inputs :
    Encoders → ℕ → Bytes → Transaction → ℕ → ℕ → Bytes → EcdsaHashMode → Outcome Bytes
legacy_encode_inputs e zero engine tx signed_index input_index script_code mode = ok engine
legacy_encode_inputs e (suc remaining) engine tx signed_index input_index script_code mode = do
  engine' ← legacy_encode_input e engine tx signed_index input_index script_code mode
  legacy_encode_inputs e remaining engine' tx signed_index (input_index + 1) script_code mode

-- `for (output_index, output) in tx.output.iter().take(output_count).enumerate()`
unfoldable pub legacy_encode_outputs :
    Encoders → ℕ → Bytes → List TxOut → ℕ → ℕ → EcdsaHashMode → Outcome Bytes
legacy_encode_outputs e zero engine outputs index output_index mode = ok engine
legacy_encode_outputs e (suc remaining) engine [] index output_index mode = ok engine
legacy_encode_outputs e (suc remaining) engine (output ∷ outputs) index output_index mode = do
  engine' ←
      encode_into engine
        (if mode.single && not (output_index == index) then e.null_tx_out else e.tx_out output)
  legacy_encode_outputs e remaining engine' outputs index (output_index + 1) mode

abbrev pub legacy_output_count : Transaction → ℕ → EcdsaHashMode → ℕ
legacy_output_count tx index mode =
    if mode.none_mode then 0 else if mode.single then index + 1 else length tx.outputs

-- What follows the test for the missing output.
unfoldable pub legacy_digest :
    Encoders → Transaction → ℕ → Bytes → ℕ → EcdsaHashMode → Outcome Bytes
legacy_digest e tx index script_code hash_type mode = do
  engine₁ ← encode_into [] (e.version tx.version)
  engine₂ ←
      (if mode.anyone_can_pay
        then (do
          engine ← encode_into engine₁ (e.var_int 1)
          legacy_encode_input e engine tx index index script_code mode)
        else (do
          engine ← encode_into engine₁ (e.var_int (length tx.inputs))
          legacy_encode_inputs e (length tx.inputs) engine tx index 0 script_code mode))
  let output_count = legacy_output_count tx index mode
  check (leb output_count (length tx.outputs))
  engine₃ ← encode_into engine₂ (e.var_int output_count)
  engine₄ ← legacy_encode_outputs e output_count engine₃ tx.outputs index 0 mode
  engine₅ ← encode_into engine₄ (e.lock_time tx.lock_time)
  engine₆ ← encode_into engine₅ (e.u32 hash_type)
  ok (e.sha256d engine₆)

unfoldable pub legacy_sighash : Encoders → Transaction → ℕ → Bytes → ℕ → Outcome Bytes
legacy_sighash e tx index script_code hash_type = do
  check (ltb index (length tx.inputs))
  mode ← from_hash_type hash_type
  if mode.single && leb (length tx.outputs) index
      then ok uint256_one
      else legacy_digest e tx index script_code hash_type mode
