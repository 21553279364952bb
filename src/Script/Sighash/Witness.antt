-- ===== src/Script/Sighash/Witness.antt =====
-- The witness v0 and taproot digests of sighash.rs: no assertion fails.
use bitmigo.Prelude.{
  ℕ, ◌+◌, ◌*◌, ◌≤◌, ◌<◌, ◌^◌, ◌≡◌, Bool, false, not, ◌&&◌, ◌||◌, List, [], ◌∷◌, ◌++◌, Option, none,
  some, ltb, leb, ◌==◌, if◌then◌else◌, length, get_elem?, arith,
}
use bitmigo.Script.Error.{
  ok, ◌>>=◌, Safe-bind, Safe-if, Safe-then, NoPanic, NoPanic-of, check, fail_if, fail_if-Safe,
  schnorr_sig_hashtype,
}
use bitmigo.Script.Num.{Bytes}
use bitmigo.Script.Stack.{expect}
use bitmigo.Script.Machine.{TaprootSpend, key_path, tapscript_leaf, IsAnnex}
use bitmigo.Script.Sighash.{
  Encoders, Transaction, TxIn, TxOut, TxPrecomputed, encode_into, encode_each, assert_built_for,
  from_hash_type, sha256_each, zero_hash, has_anyone_can_pay,
}
use bitmigo.Script.Sighash.Segwit.{single_output_hash, segwit_v0_preimage, segwit_v0_sighash}
use bitmigo.Script.Sighash.Taproot.{
  taproot_encode_input, ext_flag, is_some, check_annex, encode_annex, encode_extension,
  taproot_message, taproot_sighash, taproot_output_type, is_defined,
}
use bitmigo.Script.Sighash.Engine.{
  Writes, BuiltFor, encode-Safe, get_elem?-Safe, sha256_each-NoPanic, from_hash_type-NoPanic,
  then_encode, assert_built_for-NoPanic,
}

module _ (e : Encoders) (w : Writes e) where
  single_output-NoPanic : (o : Option TxOut) → NoPanic (single_output_hash e o)
  unfolding encode_each
  single_output-NoPanic none = tt
  single_output-NoPanic (some o) = ground (arith, w.tx_out_ok o)

  preimage-NoPanic :
      (tx : Transaction) (input : TxIn) (script_code : Bytes) (amount hash_type : ℕ)
      (hash_prevouts hash_sequence hash_outputs : Bytes)
      → NoPanic (
          segwit_v0_preimage e tx input script_code amount hash_type hash_prevouts hash_sequence
            hash_outputs)
  unfolding segwit_v0_preimage
  preimage-NoPanic tx input script_code amount hash_type prevouts sequences outputs =
      then_encode e w [] (e.version tx.version) _ (w.version_ok tx.version) λ e₁.
        then_encode e w (e₁ ++ (prevouts ++ sequences)) (e.out_point input.previous_output) _
          (w.out_point_ok input.previous_output)
          λ e₂. then_encode e w e₂ (e.script script_code) _ (w.script_ok script_code) λ e₃.
            then_encode e w e₃ (e.amount amount) _ (w.amount_ok amount) λ e₄.
              then_encode e w e₄ (e.sequence input.sequence) _ (w.sequence_ok input.sequence) λ e₅.
                then_encode e w (e₅ ++ outputs) (e.lock_time tx.lock_time) _
                  (w.lock_time_ok tx.lock_time)
                  λ e₆. encode-Safe e₆ (e.u32 hash_type) (w.u32_ok hash_type)

  pub segwit_v0_sighash-NoPanic :
      (tx : Transaction) (index : ℕ) (script_code : Bytes) (amount hash_type : ℕ)
      (p : TxPrecomputed)
      → index < length tx.inputs
      → BuiltFor p tx
      → NoPanic (segwit_v0_sighash e tx index script_code amount hash_type p)
  unfolding segwit_v0_sighash
  segwit_v0_sighash-NoPanic tx index script_code amount hash_type p h hb =
      Safe-then (λ _. Unit) (check (ltb index (length tx.inputs))) _ (ground arith)
        λ _.
          Safe-then (λ _. Unit) (assert_built_for p tx) _ (assert_built_for-NoPanic e w p tx hb)
            λ _.
              Safe-then (λ _. Unit) (from_hash_type hash_type) _
                (from_hash_type-NoPanic e w hash_type)
                λ mode.
                  Safe-then (λ _. Unit)
                    (if mode.single
                      then single_output_hash e (get_elem? tx.outputs index)
                      else ok (if mode.none_mode then zero_hash else p.hash_outputs))
                    _
                    (Safe-if (λ _. Unit) mode.single _ (ok _)
                      (λ _. single_output-NoPanic (get_elem? tx.outputs index)) λ _. tt)
                    λ hash_outputs.
                      Safe-then (λ _. Unit) (expect (get_elem? tx.inputs index)) _
                        (get_elem?-Safe tx.inputs index h)
                        λ input.
                          Safe-then (λ _. Unit)
                            (segwit_v0_preimage e tx input script_code amount hash_type
                              (if mode.anyone_can_pay then zero_hash else p.hash_prevouts)
                              (if mode.anyone_can_pay || (mode.single || mode.none_mode)
                                then zero_hash
                                else p.hash_sequence)
                              hash_outputs)
                            _
                            (preimage-NoPanic tx input script_code amount hash_type _ _
                              hash_outputs)
                            λ _. tt

  -- Taproot. An input index fits `u32`.
  encode_annex-NoPanic :
      (engine : Bytes) (annex : Option Bytes) → NoPanic (encode_annex e engine annex)
  encode_annex-NoPanic engine none = tt
  encode_annex-NoPanic engine (some annex) = ground (arith, w.var_int_ok (length annex))

  full_input-NoPanic :
      (engine : Bytes) (tx : Transaction) (index : ℕ) (prevouts : List TxOut)
      → index < length tx.inputs
      → length prevouts ≡ length tx.inputs
      → NoPanic (do
        input ← expect (get_elem? tx.inputs index)
        prevout ← expect (get_elem? prevouts index)
        a ← encode_into engine (e.out_point input.previous_output)
        b ← encode_into a (e.tx_out prevout)
        encode_into b (e.sequence input.sequence))
  full_input-NoPanic engine tx index prevouts h hp =
      Safe-then (λ _. Unit) (expect (get_elem? tx.inputs index)) _
        (get_elem?-Safe tx.inputs index h)
        λ input.
          Safe-then (λ _. Unit) (expect (get_elem? prevouts index)) _
            (get_elem?-Safe prevouts index (omega arith))
            λ prevout.
              then_encode e w engine (e.out_point input.previous_output) _
                (w.out_point_ok input.previous_output)
                λ a.
                  then_encode e w a (e.tx_out prevout) _ (w.tx_out_ok prevout)
                    λ b. encode-Safe b (e.sequence input.sequence) (w.sequence_ok input.sequence)

  taproot_input-NoPanic :
      (engine : Bytes) (tx : Transaction) (index : ℕ) (prevouts : List TxOut) (all : Bool)
      (spend : TaprootSpend) (annex : Option Bytes)
      → index < length tx.inputs
      → length tx.inputs ≤ 2 ^ 32
      → length prevouts ≡ length tx.inputs
      → NoPanic (taproot_encode_input e engine tx index prevouts all spend annex)
  unfolding taproot_encode_input
  taproot_input-NoPanic engine tx index prevouts all spend annex h l hp =
      let spend_type : ℕ = ext_flag spend * 2 + (if is_some annex then 1 else 0) in
      Safe-then (λ _. Unit) (check (leb spend_type 3)) _ (spend_type_fits spend annex)
        λ _.
          Safe-then (λ _. Unit) _ _
            (Safe-if (λ _. Unit) all _ _
              (λ _. full_input-NoPanic (engine ++ (spend_type ∷ [])) tx index prevouts h hp)
              λ _. ground (arith, w.u32_ok index))
            λ e₂. encode_annex-NoPanic e₂ annex
    where
      spend_type_fits :
          (s : TaprootSpend) (o : Option Bytes)
          → NoPanic (check (leb (ext_flag s * 2 + (if is_some o then 1 else 0)) 3))
      spend_type_fits key_path none = tt
      spend_type_fits key_path (some o) = tt
      spend_type_fits (tapscript_leaf hash codesep) none = tt
      spend_type_fits (tapscript_leaf hash codesep) (some o) = tt

  extension-NoPanic :
      (engine : Bytes) (spend : TaprootSpend) → NoPanic (encode_extension e engine spend)
  extension-NoPanic engine key_path = tt
  extension-NoPanic engine (tapscript_leaf leaf_hash codesep_pos) =
      encode-Safe (engine ++ (leaf_hash ++ (0 ∷ []))) (e.u32 codesep_pos) (w.u32_ok codesep_pos)

  message-NoPanic :
      (tx : Transaction) (index : ℕ) (prevouts : List TxOut) (hash_type : ℕ) (spend : TaprootSpend)
      (annex : Option Bytes) (p : TxPrecomputed)
      → index < length tx.inputs
      → length tx.inputs ≤ 2 ^ 32
      → length prevouts ≡ length tx.inputs
      → (taproot_output_type hash_type == 3 && leb (length tx.outputs) index) ≡ false
      → NoPanic (taproot_message e tx index prevouts hash_type spend annex p)
  unfolding taproot_message
  message-NoPanic tx index prevouts hash_type spend annex p h l hp hs =
      let all : Bool = has_anyone_can_pay hash_type in
      let type : ℕ = taproot_output_type hash_type in
      then_encode e w (0 ∷ hash_type ∷ []) (e.version tx.version) _ (w.version_ok tx.version) λ e₁.
        then_encode e w e₁ (e.lock_time tx.lock_time) _ (w.lock_time_ok tx.lock_time) λ e₂.
          let e₃ : Bytes =
            if all
            then e₂
            else e₂
              ++ (p.sha_prevouts ++ (p.sha_amounts ++ (p.sha_scriptpubkeys ++ p.sha_sequences))) in
          let e₄ : Bytes = if type == 1 then e₃ ++ p.sha_outputs else e₃ in
          Safe-then (λ _. Unit) (taproot_encode_input e e₄ tx index prevouts all spend annex) _
            (taproot_input-NoPanic e₄ tx index prevouts all spend annex h l hp)
            λ e₅.
              Safe-then (λ _. Unit) _ _
                (Safe-if (λ _. Unit) (type == 3) _ (ok e₅)
                  (λ single.
                    Safe-then (λ _. Unit) (expect (get_elem? tx.outputs index)) _
                      (get_elem?-Safe tx.outputs index (ground (arith, hs, single)))
                      λ output.
                        Safe-then (λ _. Unit) (sha256_each e (e.tx_out output ∷ [])) _
                          (sha256_each-NoPanic e w e.tx_out (output ∷ []) w.tx_out_ok) λ digest. tt)
                  λ _. tt)
                λ e₆. extension-NoPanic e₆ spend

  check_annex-NoPanic : (annex : Option Bytes) → IsAnnex annex → NoPanic (check_annex annex)
  check_annex-NoPanic none h = tt
  check_annex-NoPanic (some annex) h = ground (arith, h)

  pub taproot_sighash-NoPanic :
      (tx : Transaction) (index : ℕ) (prevouts : List TxOut) (hash_type : ℕ) (spend : TaprootSpend)
      (annex : Option Bytes) (p : TxPrecomputed)
      → index < length tx.inputs
      → length tx.inputs ≤ 2 ^ 32
      → length prevouts ≡ length tx.inputs
      → BuiltFor p tx
      → IsAnnex annex
      → NoPanic (taproot_sighash e tx index prevouts hash_type spend annex p)
  unfolding taproot_sighash
  taproot_sighash-NoPanic tx index prevouts hash_type spend annex p h l hp hb ha =
      Safe-then (λ _. Unit) (check (ltb index (length tx.inputs))) _ (ground arith)
        λ _.
          Safe-then (λ _. Unit) (check (length prevouts == length tx.inputs)) _ (ground (arith, hp))
            λ _.
              Safe-then (λ _. Unit) (assert_built_for p tx) _ (assert_built_for-NoPanic e w p tx hb)
                λ _.
                  Safe-then (λ _. Unit) (check_annex annex) _ (check_annex-NoPanic annex ha)
                    λ _.
                      Safe-then (λ _. Unit)
                        (fail_if (not (is_defined hash_type)) schnorr_sig_hashtype) _
                        (NoPanic-of _ _ (fail_if-Safe _ schnorr_sig_hashtype))
                        λ _.
                          let missing : Bool =
                            taproot_output_type hash_type == 3 && leb (length tx.outputs) index in
                          Safe-bind _ (λ _. Unit) (fail_if missing schnorr_sig_hashtype) _
                            (fail_if-Safe missing schnorr_sig_hashtype)
                            λ _ hs.
                              Safe-then (λ _. Unit)
                                (taproot_message e tx index prevouts hash_type spend annex p) _
                                (message-NoPanic tx index prevouts hash_type spend annex p h l hp
                                  hs)
                                λ engine. tt
