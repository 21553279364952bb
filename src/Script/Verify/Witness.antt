-- ===== src/Script/Verify/Witness.antt =====
-- The witness programs of verify.rs end with a verdict, and no assertion on the way fails.
use bitmigo.Prelude.{
  ℕ, ◌*◌, ◌≤◌, ◌<◌, ◌^◌, ◌≡◌, refl, Bool, true, false, not, ◌&&◌, List, [], ◌∷◌, reverse, Option,
  ltb, ◌==◌, length, arith,
}
use bitmigo.Script.Error.{
  ok, err, Safe, Safe-bind, Safe-if, Safe-then, NoPanic, NoPanic-of, fail_if, fail_if-Safe, check,
  witness_program_mismatch, witness_program_witness_empty, witness_program_wrong_length,
}
use bitmigo.Script.Num.{Bytes}
use bitmigo.Script.Num.Value.{All, IsBytes}
use bitmigo.Script.Stack.{from_items}
use bitmigo.Script.Stack.Safety.{IsStack}
use bitmigo.Script.Flags.{contains, flag_taproot}
use bitmigo.Script.Machine.{
  IsAnnex, SigVersion, witness_v0, tapscript, is_tapscript, is_base, ExecData, exec_legacy,
  exec_tapscript, key_path,
}
use bitmigo.Script.Signatures.Safety.{IsBudget, IsExec}
use bitmigo.Script.Interpreter.{eval_script}
use bitmigo.Script.Interpreter.Total.{eval_script-within}
use bitmigo.Script.Taproot.{
  parse_control, tapleaf_hash, verify_taproot_commitment, items_size, witness_serialized_size,
  validation_weight,
}
use bitmigo.Script.Taproot.Control.{IsControl, commitment-NoPanic}
use bitmigo.Script.Programs.{has_op_success}
use bitmigo.Script.Programs.Safety.{scans-NoPanic}
use bitmigo.Script.Verify.{
  Rules, env_of, check_item_sizes, run_witness_script, execute_witness_script, strip_annex,
  verify_script_path, taproot_spend, verify_taproot, p2wpkh_script, verify_script_hash,
  verify_key_hash, verify_witness_program,
}
use bitmigo.Script.Verify.Items.{
  All-IsBytes, All-reverse, IsWitnessItem, RulesSafe, Stripped, check_item_sizes-Safe,
  cleanstack-Safe, from_items-Safe, length-reverse, p2wpkh-Safe, parse_control-Safe,
  strip_annex-IsAnnex, strip_annex-Stripped, strip_annex-nonempty,
}

module _ (rules : Rules) (rs : RulesSafe rules) where
  run-Safe :
      (items : List Bytes) (script : Bytes) (v : SigVersion) (exec : ExecData)
      → All IsBytes items
      → length items ≤ 2 ^ 32
      → IsWitnessItem script
      → IsExec v exec.tapscript_exec
      → NoPanic (run_witness_script rules items script v exec)
  unfolding run_witness_script
  run-Safe items script v exec hi hl hs he =
      Safe-bind _ (λ _. Unit) (check_item_sizes items) _ (check_item_sizes-Safe items hi)
        λ _ hst.
          Safe-bind _ (λ _. Unit) (from_items items) _ (from_items-Safe items hst)
            λ s hs2.
              Safe-bind (λ p. IsStack p.0 × (length p.0 ≤ 2 ^ 32) × IsExec v p.1.tapscript_exec)
                (λ _. Unit) (eval_script (env_of rules v script) s exec) _
                (eval_script-within (2 ^ 32) (env_of rules v script) s exec (omega arith)
                  (omega arith) rs.checker_ok rs.hashes_ok hs.0 (omega (arith, hs.1)) (λ _. hs.1)
                  hs2.0 (omega (arith, hs2.1)) he)
                λ p hp. cleanstack-Safe p.0 hp.0

  execute-Safe :
      (items : List Bytes) (script : Bytes) (v : SigVersion) (exec : ExecData)
      → is_base v ≡ false
      → All IsBytes items
      → length items ≤ 2 ^ 32
      → IsWitnessItem script
      → IsExec v exec.tapscript_exec
      → NoPanic (execute_witness_script rules items script v exec)
  unfolding execute_witness_script
  execute-Safe items script v exec hv hi hl hs he =
      let run = run-Safe items script v exec hi hl hs he in
      Safe-then (λ _. Unit) (check (not (is_base v))) _ (ground (arith, hv))
        λ _.
          Safe-if (λ _. Unit) (is_tapscript v) _ _
            (λ _.
              Safe-then (λ _. Unit) (has_op_success script) _
                (scans-NoPanic script hs.0 (omega (arith, hs.1))).1 λ b. ground (arith, run))
            λ _. run

  script_hash-Safe :
      (items : List Bytes) (program : Bytes)
      → All IsWitnessItem items
      → length items ≤ 2 ^ 32
      → NoPanic (verify_script_hash rules items program)
  unfolding verify_script_hash
  script_hash-Safe [] program h l = tt
  script_hash-Safe (script ∷ items) program h l =
      Safe-then (λ _. Unit) (fail_if _ witness_program_mismatch) _
        (NoPanic-of _ _ (fail_if-Safe _ _))
        λ _.
          execute-Safe (reverse items) script witness_v0 exec_legacy refl
            (All-reverse IsBytes items (All-IsBytes items h.1))
            (omega (arith, length-reverse items)) h.0 (unfold exec_legacy in refl)

  key_hash-Safe :
      (witness : List Bytes) (program : Bytes)
      → All IsWitnessItem witness
      → length witness ≤ 2 ^ 32
      → IsBytes program
      → length program ≡ 20
      → NoPanic (verify_key_hash rules witness program)
  unfolding verify_key_hash
  key_hash-Safe witness program h l hp hl =
      Safe-then (λ _. Unit) (fail_if _ witness_program_mismatch) _
        (NoPanic-of _ _ (fail_if-Safe _ _))
        λ _.
          Safe-bind IsWitnessItem (λ _. Unit) (p2wpkh_script program) _ (p2wpkh-Safe program hp hl)
            λ script hs.
              execute-Safe witness script witness_v0 exec_legacy refl (All-IsBytes witness h) l hs
                (unfold exec_legacy in refl)

  items_size-le :
      (items : List Bytes)
      → All IsWitnessItem items
      → items_size rules.primitives items ≤ 10010 * length items
  unfolding items_size
  items_size-le [] h = omega arith
  items_size-le (item ∷ items) h =
      omega (arith, h.0.1, rs.var_int_ok (length item), items_size-le items h.1)

  weight-Safe :
      (witness : List Bytes)
      → All IsWitnessItem witness
      → length witness ≤ 2 ^ 32
      → Safe IsBudget (validation_weight rules.primitives witness)
  unfolding validation_weight witness_serialized_size
  weight-Safe witness h l = ground (arith, items_size-le witness h, rs.var_int_ok (length witness))

  script_path-Safe :
      (witness : List Bytes) (key : Bytes) (annex : Option Bytes) (control script : Bytes)
      (items : List Bytes)
      → All IsWitnessItem witness
      → length witness ≤ 2 ^ 32
      → IsWitnessItem script
      → All IsWitnessItem items
      → length items ≤ 2 ^ 32
      → IsAnnex annex
      → NoPanic (verify_script_path rules witness key annex control script items)
  unfolding verify_script_path
  script_path-Safe witness key annex control script items hw lw hs hi li ha =
      Safe-bind IsControl (λ _. Unit) (parse_control control) _ (parse_control-Safe control)
        λ c hc.
          Safe-then (λ _. Unit) (tapleaf_hash rules.primitives c.leaf_version script) _
            (unfold tapleaf_hash in ground (arith, hc.version_ok))
            λ leaf.
              Safe-then (λ _. Unit) (verify_taproot_commitment rules.primitives c key leaf) _
                (commitment-NoPanic rules.primitives c key leaf hc)
                λ committed.
                  Safe-then (λ _. Unit) (fail_if (not committed) witness_program_mismatch) _
                    (NoPanic-of _ _ (fail_if-Safe _ _))
                    λ _.
                      Safe-if (λ _. Unit) (not (c.leaf_version == 0xc0)) (ok tt) _ (λ _. tt)
                        λ _.
                          Safe-bind IsBudget (λ _. Unit)
                            (validation_weight rules.primitives witness) _
                            (weight-Safe witness hw lw)
                            λ weight hb.
                              execute-Safe (reverse items) script tapscript
                                (exec_tapscript (record {
                                  leaf_hash = leaf;
                                  annex = annex;
                                  validation_weight_left = weight;
                                }))
                                refl (All-reverse IsBytes items (All-IsBytes items hi))
                                (omega (arith, length-reverse items)) hs
                                (unfold exec_tapscript in (refl, (hb, ha)))

  spend-Safe :
      (witness : List Bytes) (key : Bytes) (items : List Bytes) (annex : Option Bytes)
      → All IsWitnessItem witness
      → length witness ≤ 2 ^ 32
      → length key ≡ 32
      → All IsWitnessItem items
      → length items ≤ 2 ^ 32
      → 0 < length items
      → IsAnnex annex
      → NoPanic (taproot_spend rules witness key (items, annex))
  unfolding taproot_spend
  spend-Safe witness key [] annex hw lw hk hi li ne ha = absurd (omega arith)
  spend-Safe witness key (signature ∷ []) annex hw lw hk hi li ne ha =
      rs.checker_ok.schnorr_safe signature key key_path annex hk ha
  spend-Safe witness key (control ∷ script ∷ items) annex hw lw hk hi li ne ha =
      script_path-Safe witness key annex control script items hw lw hi.1.0 hi.1.1 (omega arith) ha

  taproot-Safe :
      (witness : List Bytes) (key : Bytes)
      → contains rules.flags flag_taproot ≡ true
      → All IsWitnessItem witness
      → length witness ≤ 2 ^ 32
      → length key ≡ 32
      → NoPanic (verify_taproot rules witness key)
  unfolding verify_taproot
  taproot-Safe witness key f h l hk =
      Safe-then (λ _. Unit) (check (contains rules.flags flag_taproot)) _ (ground (arith, f))
        λ _.
          Safe-bind _ (λ _. Unit) (fail_if (length witness == 0) witness_program_witness_empty) _
            (fail_if-Safe _ witness_program_witness_empty)
            λ _ ne.
              let p : List Bytes × Option Bytes = strip_annex (reverse witness) in
              let st : Stripped IsWitnessItem (reverse witness) p =
                strip_annex-Stripped IsWitnessItem (reverse witness)
                  (All-reverse IsWitnessItem witness h) in
              let size : length (reverse witness) ≡ length witness = length-reverse witness in
              let nonempty : 0 < length (reverse witness) = ground (arith, size, ne) in
              spend-Safe witness key p.0 p.1 h l hk st.0 (omega (arith, st.1))
                (strip_annex-nonempty (reverse witness) nonempty)
                (strip_annex-IsAnnex (reverse witness))

  pub program-Safe :
      (witness : List Bytes) (version : ℕ) (program : Bytes) (is_p2sh : Bool)
      → All IsWitnessItem witness
      → length witness ≤ 2 ^ 32
      → IsBytes program
      → 2 ≤ length program
      → length program ≤ 40
      → NoPanic (verify_witness_program rules witness version program is_p2sh)
  unfolding verify_witness_program
  program-Safe witness version program is_p2sh h l hp lo hi =
      Safe-then (λ _. Unit) (check (not (ltb (length program) 2))) _ (ground arith)
        λ _.
          Safe-then (λ _. Unit) (check (not (ltb 40 (length program)))) _ (ground arith)
            λ _.
              Safe-if (λ _. Unit) (version == 0) _ _
                (λ _.
                  Safe-if (λ _. Unit) (length program == 32) _ _
                    (λ _.
                      script_hash-Safe (reverse witness) program
                        (All-reverse IsWitnessItem witness h)
                        (omega (arith, length-reverse witness)))
                    λ _.
                      Safe-if (λ _. Unit) (length program == 20) _
                        (err witness_program_wrong_length)
                        (λ e. key_hash-Safe witness program h l hp (ground (arith, e))) λ _. tt)
                λ _.
                  Safe-if (λ _. Unit) (version == 1 && (not is_p2sh && length program == 32)) _
                    (ok tt)
                    (λ e.
                      Safe-if (λ _. Unit) (not (contains rules.flags flag_taproot)) (ok tt) _
                        (λ _. tt)
                        λ f.
                          taproot-Safe witness program (ground (arith, f)) h l (ground (arith, e)))
                    λ _. tt
