-- ===== src/Script/Sighash/Safety.antt =====
-- The legacy digest of sighash.rs: its loops end, and no assertion fails.
use bitmigo.Prelude.{
  ℕ, zero, suc, ◌+◌, ◌-◌, ◌≤◌, ◌<◌, ◌≡◌, false, not, ◌&&◌, List, [], ◌∷◌, ltb, leb, ◌==◌,
  if◌then◌else◌, length, get_elem?, arith,
}
use bitmigo.Script.Error.{Outcome, ok, ◌>>=◌, Safe, Safe-bind, Safe-if, Safe-then, NoPanic, check}
use bitmigo.Script.Num.{Bytes}
use bitmigo.Script.Stack.{expect}
use bitmigo.Script.Reader.{OpRead, whole, truncated, slice, read_op}
use bitmigo.Script.Reader.Safety.{Reads, read_op-Safe}
use bitmigo.Script.Sighash.{
  Encoders, Transaction, TxOut, EcdsaHashMode, encode_into, from_hash_type,
}
use bitmigo.Script.Sighash.Legacy.{
  Segments, count_step, count_separators, segment_step, write_segments, finish_segments,
  legacy_encode_script_code, legacy_encode_input, legacy_encode_inputs, legacy_encode_outputs,
  legacy_output_count, legacy_digest, legacy_sighash,
}
use bitmigo.Script.Sighash.Engine.{
  Writes, encode-Safe, get_elem?-Safe, from_hash_type-NoPanic, then_encode,
}

slice-NoPanic :
    (script : Bytes) (a b : ℕ) → a ≤ b → b ≤ length script → NoPanic (expect (slice script a b))
slice-NoPanic script a b h k = ground arith

-- Each separator counted is a byte passed.
module _ (script : Bytes) where
  count_step-Safe :
      (continue_at : ℕ → ℕ → Outcome ℕ) (position count : ℕ) (step : OpRead)
      → count ≤ position
      → Reads script position step
      → ((next n : ℕ)
          → position < next
          → next ≤ length script
          → n ≤ next
          → Safe (λ n. n ≤ length script) (continue_at next n))
      → Safe (λ n. n ≤ length script) (count_step continue_at position count step)
  count_step-Safe continue_at position count (truncated next) c hr k = omega arith
  count_step-Safe continue_at position count (whole opcode next) c hr k =
      ground (arith, k next count, k next (count + 1))

  count_separators-Safe :
      (fuel position count : ℕ)
      → position ≤ length script
      → length script < fuel + position
      → count ≤ position
      → Safe (λ n. n ≤ length script) (count_separators fuel script position count)
  unfolding count_separators
  count_separators-Safe zero position count h f c = absurd (omega arith)
  count_separators-Safe (suc fuel) position count h f c =
      Safe-if _ (leb (length script) position) (ok count) _ (λ _. omega arith)
        λ e.
          Safe-bind (Reads script position) _ (read_op script position) _
            (read_op-Safe script position (ground (arith, e)))
            λ step hr.
              count_step-Safe (λ next n. count_separators fuel script next n) position count step c
                hr λ next n lt le hn. count_separators-Safe fuel next n le (omega arith) hn

  -- The segment being read starts before the cursor, which stays in the script.
  abbrev Inside : Segments → Type 0
  Inside s = (s.segment_start ≤ s.position) × (s.position ≤ length script)

  segment_step-Safe :
      (continue_with : Segments → Outcome Segments) (s : Segments) (step : OpRead)
      → Inside s
      → Reads script s.position step
      → ((t : Segments) → Inside t → s.position < t.position → Safe Inside (continue_with t))
      → Safe Inside (segment_step continue_with script s step)
  segment_step-Safe continue_with s (truncated next) h hr k = (omega arith, omega arith)
  segment_step-Safe continue_with s (whole opcode next) h hr k =
      Safe-then Inside (check (ltb s.position next)) _ (ground (arith, hr.0)) λ _.
        Safe-if Inside (opcode == 0xab) _ _
          (λ _.
            Safe-then Inside (expect (slice script s.segment_start (next - 1))) _
              (slice-NoPanic script s.segment_start (next - 1) (omega arith) (omega arith))
              λ segment. k _ (omega arith, hr.1) (omega arith))
          λ _. k _ (omega arith, hr.1) (omega arith)

  write_segments-Safe :
      (fuel : ℕ) (s : Segments)
      → Inside s
      → length script < fuel + s.position
      → Safe Inside (write_segments fuel script s)
  unfolding write_segments
  write_segments-Safe zero s h f = absurd (omega arith)
  write_segments-Safe (suc fuel) s h f =
      Safe-if Inside (leb (length script) s.position) (ok s) _ (λ _. h)
        λ e.
          Safe-bind (Reads script s.position) Inside (read_op script s.position) _
            (read_op-Safe script s.position (ground (arith, e)))
            λ step hr.
              segment_step-Safe (λ t. write_segments fuel script t) s step h hr
                λ t ht lt. write_segments-Safe fuel t ht (omega arith)

  finish_segments-Safe : (s : Segments) → Inside s → NoPanic (finish_segments script s)
  unfolding finish_segments
  finish_segments-Safe s h = ground (arith, slice-NoPanic script s.segment_start s.position h.0 h.1)

module _ (e : Encoders) (w : Writes e) where
  pub script_code-NoPanic :
      (engine script : Bytes) → NoPanic (legacy_encode_script_code e engine script)
  unfolding legacy_encode_script_code
  script_code-NoPanic engine script =
      Safe-bind _ (λ _. Unit) (count_separators (suc (length script)) script 0 0) _
        (count_separators-Safe script (suc (length script)) 0 0 (omega arith) (omega arith)
          (omega arith))
        λ n hn.
          Safe-then (λ _. Unit) (check (leb n (length script))) _ (ground arith)
            λ _.
              Safe-then (λ _. Unit) (encode_into engine (e.var_int (length script - n))) _
                (encode-Safe engine _ (w.var_int_ok (length script - n)))
                λ engine'.
                  Safe-bind (Inside script) (λ _. Unit)
                    (write_segments (suc (length script)) script
                      (record { engine = engine'; segment_start = 0; position = 0 }))
                    _
                    (write_segments-Safe script (suc (length script)) _ (omega arith, omega arith)
                      (omega arith))
                    λ s hs. finish_segments-Safe script s hs

  legacy_encode_input-NoPanic :
      (engine : Bytes) (tx : Transaction) (signed_index input_index : ℕ) (script_code : Bytes)
      (mode : EcdsaHashMode)
      → input_index < length tx.inputs
      → NoPanic (legacy_encode_input e engine tx signed_index input_index script_code mode)
  unfolding legacy_encode_input
  legacy_encode_input-NoPanic engine tx signed_index input_index script_code mode h =
      Safe-then (λ _. Unit) (expect (get_elem? tx.inputs input_index)) _
        (get_elem?-Safe tx.inputs input_index h)
        λ input.
          Safe-then (λ _. Unit) (encode_into engine (e.out_point input.previous_output)) _
            (encode-Safe engine _ (w.out_point_ok input.previous_output))
            λ engine₁.
              Safe-then (λ _. Unit)
                (if input_index == signed_index
                  then legacy_encode_script_code e engine₁ script_code
                  else encode_into engine₁ (e.var_int 0))
                _
                (Safe-if (λ _. Unit) (input_index == signed_index) _ _
                  (λ _. script_code-NoPanic engine₁ script_code)
                  λ _. encode-Safe engine₁ _ (w.var_int_ok 0))
                λ engine₂. ground (arith, w.u32_ok 0, w.sequence_ok input.sequence)

  legacy_encode_inputs-NoPanic :
      (remaining : ℕ) (engine : Bytes) (tx : Transaction) (signed_index input_index : ℕ)
      (script_code : Bytes) (mode : EcdsaHashMode)
      → remaining + input_index ≤ length tx.inputs
      → NoPanic
          (legacy_encode_inputs e remaining engine tx signed_index input_index script_code mode)
  unfolding legacy_encode_inputs
  legacy_encode_inputs-NoPanic zero engine tx signed_index input_index script_code mode h = tt
  legacy_encode_inputs-NoPanic (suc n) engine tx signed_index input_index script_code mode h =
      Safe-then (λ _. Unit)
        (legacy_encode_input e engine tx signed_index input_index script_code mode) _
        (legacy_encode_input-NoPanic engine tx signed_index input_index script_code mode
          (omega arith))
        λ engine'.
          legacy_encode_inputs-NoPanic n engine' tx signed_index (input_index + 1) script_code mode
            (omega arith)

  legacy_encode_outputs-NoPanic :
      (remaining : ℕ) (engine : Bytes) (outputs : List TxOut) (index output_index : ℕ)
      (mode : EcdsaHashMode)
      → NoPanic (legacy_encode_outputs e remaining engine outputs index output_index mode)
  unfolding legacy_encode_outputs
  legacy_encode_outputs-NoPanic zero engine outputs index output_index mode = tt
  legacy_encode_outputs-NoPanic (suc n) engine [] index output_index mode = tt
  legacy_encode_outputs-NoPanic (suc n) engine (o ∷ outputs) index output_index mode =
      Safe-then (λ _. Unit)
        (encode_into engine
          (if mode.single && not (output_index == index) then e.null_tx_out else e.tx_out o))
        _ (ground (arith, w.null_ok, w.tx_out_ok o))
        λ engine'. legacy_encode_outputs-NoPanic n engine' outputs index (output_index + 1) mode

  legacy_digest-NoPanic :
      (tx : Transaction) (index : ℕ) (script_code : Bytes) (hash_type : ℕ) (mode : EcdsaHashMode)
      → index < length tx.inputs
      → (mode.single && leb (length tx.outputs) index) ≡ false
      → NoPanic (legacy_digest e tx index script_code hash_type mode)
  unfolding legacy_digest
  legacy_digest-NoPanic tx index script_code hash_type mode h hs =
      then_encode e w [] (e.version tx.version) _ (w.version_ok tx.version) λ engine₁.
        Safe-then (λ _. Unit)
          (if mode.anyone_can_pay
            then (do
              engine ← encode_into engine₁ (e.var_int 1)
              legacy_encode_input e engine tx index index script_code mode)
            else (do
              engine ← encode_into engine₁ (e.var_int (length tx.inputs))
              legacy_encode_inputs e (length tx.inputs) engine tx index 0 script_code mode))
          _
          (Safe-if (λ _. Unit) mode.anyone_can_pay _ _
            (λ _.
              then_encode e w engine₁ (e.var_int 1) _ (w.var_int_ok 1)
                λ engine. legacy_encode_input-NoPanic engine tx index index script_code mode h)
            λ _.
              then_encode e w engine₁ (e.var_int (length tx.inputs)) _
                (w.var_int_ok (length tx.inputs))
                λ engine.
                  legacy_encode_inputs-NoPanic (length tx.inputs) engine tx index 0 script_code mode
                    (omega arith))
          λ engine₂.
            let n : ℕ = legacy_output_count tx index mode in
            Safe-then (λ _. Unit) (check (leb n (length tx.outputs))) _ (ground (arith, hs))
              λ _. then_encode e w engine₂ (e.var_int n) _ (w.var_int_ok n) λ engine₃.
                Safe-then (λ _. Unit) (legacy_encode_outputs e n engine₃ tx.outputs index 0 mode) _
                  (legacy_encode_outputs-NoPanic n engine₃ tx.outputs index 0 mode)
                  λ engine₄.
                    then_encode e w engine₄ (e.lock_time tx.lock_time) _
                      (w.lock_time_ok tx.lock_time)
                      λ engine₅.
                        then_encode e w engine₅ (e.u32 hash_type) _ (w.u32_ok hash_type) λ _. tt

  pub legacy_sighash-NoPanic :
      (tx : Transaction) (index : ℕ) (script_code : Bytes) (hash_type : ℕ)
      → index < length tx.inputs
      → NoPanic (legacy_sighash e tx index script_code hash_type)
  unfolding legacy_sighash
  legacy_sighash-NoPanic tx index script_code hash_type h =
      Safe-then (λ _. Unit) (check (ltb index (length tx.inputs))) _ (ground arith)
        λ _.
          Safe-then (λ _. Unit) (from_hash_type hash_type) _ (from_hash_type-NoPanic e w hash_type)
            λ mode.
              Safe-if (λ _. Unit) (mode.single && leb (length tx.outputs) index) (ok _) _ (λ _. tt)
                λ hs. legacy_digest-NoPanic tx index script_code hash_type mode h hs
