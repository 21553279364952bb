-- ===== src/Script/Signatures/Multisig.antt =====
-- `OP_CHECKMULTISIG` and `OP_CHECKSIGADD` keep the machine well formed and do not panic.
use bitmigo.Prelude.{
  ℕ, zero, suc, ◌+◌, ◌-◌, ◌≤◌, ◌^◌, ◌≡◌, ◌∙◌, refl, Bool, true, false, not, length, arith, ltb,
  ◌==◌, ◌||◌, ◌&&◌,
}
use bitmigo.Prelude.Int.{ℤ, pos, negsuc, ltb_ℤ}
use bitmigo.Script.Error.{
  NoPanic, NoPanic-of, Safe-then, ok, Safe, Safe-bind, Safe-if, Safe-mono, fail_if, fail_if-Safe,
  ◌>>=◌, op_count, pubkey_count, sig_count, sig_nulldummy, tapscript_checkmultisig, bad_opcode,
}
use bitmigo.Script.Num.{
  Bytes, ScriptNum, decode, encode, num_add, from_bool, to_clamped_i32, is_negative,
}
use bitmigo.Script.Num.Bounds.{Within, decode-Safe4, encode-Safe, num_add-Safe, IsEncoded}
use bitmigo.Script.Stack.{Stack, require, push, push_bool, pop, top}
use bitmigo.Script.Stack.Safety.{
  IsItem, IsStack, IsPopped, require-Safe, top-Safe, pop-Safe, push_bool-Safe, push_length-Safe,
  IsEncoded-IsItem,
}
use bitmigo.Script.Opcode
use bitmigo.Script.Flags.{contains, flag_nulldummy}
use bitmigo.Script.Der.{check_signature_encoding}
use bitmigo.Script.Der.Safety.{check_encoding-Safe}
use bitmigo.Script.Machine.{is_tapscript, is_base, CheckerSafe, Env, Machine}
use bitmigo.Script.Signatures.{
  script_code, delete_signature, eval_checksig, checksigadd, count_from, delete_signatures,
  multisig_script_code, checkmultisig_verify, pop_many, finish_multisig, key_count_of, sig_count_of,
  checkmultisig,
}
use bitmigo.Script.Signatures.Safety.{
  IsMachine, delete_signature-Safe, script_code-Safe, not_tapscript, Checked, eval_checksig-Safe,
  Kept, with_stack, verdict-Safe,
}

count_from-Safe :
    (k : ℕ) (c : ℤ) → (is_negative c || ltb_ℤ (pos k) c) ≡ false → Safe (λ n. n ≤ k) (count_from c)
unfolding count_from
count_from-Safe k (pos n) e = ground arith
count_from-Safe k (negsuc n) e = ground arith

pop_many-Safe :
    (n : ℕ) (s : Stack)
    → IsStack s
    → n ≤ length s
    → Safe (λ t. IsStack t × (length t + n ≡ length s)) (pop_many n s)
unfolding pop_many
pop_many-Safe zero s h l = (h, omega arith)
pop_many-Safe (suc n) s h l =
    Safe-bind (IsPopped s) _ (pop s) _ (pop-Safe s h (omega arith)) λ p hp.
      Safe-mono (λ t. IsStack t × (length t + n ≡ length p.1))
        (λ t. IsStack t × (length t + suc n ≡ length s)) (pop_many n p.1)
        (λ t ht. (ht.0, omega arith)) (pop_many-Safe n p.1 hp.1 (omega arith))

delete_signatures-Safe :
    (left isig k : ℕ) (s : Stack) (code : Bytes)
    → IsStack s
    → 1 ≤ isig
    → isig + k + left ≤ length s + 1
    → NoPanic (delete_signatures left isig k s code)
unfolding delete_signatures
delete_signatures-Safe zero isig k s code h lo l = tt
delete_signatures-Safe (suc left) isig k s code h lo l =
    Safe-bind IsItem (λ _. Unit) (top (isig + k) s) _
      (top-Safe (isig + k) s h (omega arith) (omega arith))
      λ signature hs.
        Safe-then (λ _. Unit) (delete_signature code signature) _
          (delete_signature-Safe code signature hs)
          λ code'. delete_signatures-Safe left isig (k + 1) s code' h lo (omega arith)

module _ (env : Env) (cs : CheckerSafe env.checker) where
  multisig_code-Safe :
      (m : Machine) (isig sigs : ℕ)
      → IsMachine env m
      → 1 ≤ isig
      → isig + sigs ≤ length m.stack
      → NoPanic (multisig_script_code env m isig sigs)
  unfolding multisig_script_code
  multisig_code-Safe m isig sigs h lo l =
      Safe-then (λ _. Unit) (script_code env m) _ (script_code-Safe env cs m h)
        λ code.
          Safe-if (λ _. Unit) (is_base env.sig_version) _ _
            (λ _. delete_signatures-Safe sigs isig 0 m.stack code h.stack_ok lo (omega arith))
            λ _. tt

  -- The matching loop ends within the keys that it is given.
  matching-Safe :
      (fuel : ℕ) (s : Stack) (ikey isig keys sigs : ℕ) (code : Bytes)
      → is_tapscript env.sig_version ≡ false
      → IsStack s
      → 1 ≤ ikey
      → 1 ≤ isig
      → ikey + keys ≤ length s + 1
      → isig + sigs ≤ length s + 1
      → sigs ≤ keys
      → keys ≤ fuel
      → NoPanic (checkmultisig_verify fuel env s ikey isig keys sigs code)
  unfolding checkmultisig_verify
  matching-Safe fuel s ikey isig keys zero code v h a b c d e f = tt
  matching-Safe zero s ikey isig keys (suc sigs) code v h a b c d e f = absurd (omega arith)
  matching-Safe (suc fuel) s ikey isig keys (suc sigs) code v h a b c d e f =
      Safe-bind IsItem (λ _. Unit) (top isig s) _ (top-Safe isig s h b (omega arith))
        λ signature hs.
          Safe-bind IsItem (λ _. Unit) (top ikey s) _ (top-Safe ikey s h a (omega arith))
            λ pubkey hp.
              Safe-then (λ _. Unit) (check_signature_encoding signature env.flags) _
                (check_encoding-Safe signature env.flags)
                λ _.
                  Safe-then (λ _. Unit)
                    (env.checker.check_ecdsa signature pubkey code env.sig_version) _
                    (cs.ecdsa_safe signature pubkey code env.sig_version (not_tapscript env cs v))
                    λ matched. ground (
                      arith,
                      matching-Safe fuel s (ikey + 1) (isig + 1) (keys - 1) sigs code v h
                          (omega arith) (omega arith),
                      matching-Safe fuel s (ikey + 1) isig (keys - 1) (suc sigs) code v h
                          (omega arith) b,
                    )

  -- The key count, and the opcode count that it raises.
  abbrev Keys : Machine → ℕ × Machine → Type 0
  Keys m p =
      (p.0 ≤ 20) × IsMachine env p.1 × (p.1.stack ≡ m.stack) × (p.1.conditions ≡ m.conditions)

  key_count-Safe : (m : Machine) → IsMachine env m → Safe (Keys m) (key_count_of m)
  unfolding key_count_of
  key_count-Safe m h = Safe-bind _ (Keys m) (require 1 m.stack) _ (require-Safe 1 m.stack) λ _ l.
      Safe-bind IsItem (Keys m) (top 1 m.stack) _ (top-Safe 1 m.stack h.stack_ok (omega arith) l)
        λ a ha. Safe-bind _ (Keys m) (decode a 4) _ (decode-Safe4 a ha.item_bytes) λ n _.
          let count : ℤ = to_clamped_i32 n in
          Safe-bind _ (Keys m) (fail_if (is_negative count || ltb_ℤ (pos 20) count) pubkey_count) _
            (fail_if-Safe _ pubkey_count)
            λ _ range.
              Safe-bind _ (Keys m) (count_from count) _ (count_from-Safe 20 count range)
                λ keys small.
                  Safe-bind _ (Keys m) (fail_if (ltb 201 (m.op_count + keys)) op_count) _
                    (fail_if-Safe _ op_count)
                    λ _ limit. (
                      small,
                      record {
                        stack_ok = h.stack_ok;
                        altstack_ok = h.altstack_ok;
                        ops_ok = ground arith;
                        separator_ok = h.separator_ok;
                        exec_ok = h.exec_ok;
                      },
                      refl,
                      refl,
                    )

  sig_count-Safe :
      (keys : ℕ) (m : Machine) → IsMachine env m → Safe (λ n. n ≤ keys) (sig_count_of keys m)
  unfolding sig_count_of
  sig_count-Safe keys m h =
      Safe-bind _ (λ n. n ≤ keys) (require (2 + keys) m.stack) _ (require-Safe (2 + keys) m.stack)
        λ _ l.
          Safe-bind IsItem (λ n. n ≤ keys) (top (2 + keys) m.stack) _
            (top-Safe (2 + keys) m.stack h.stack_ok (omega arith) l)
            λ a ha.
              Safe-bind _ (λ n. n ≤ keys) (decode a 4) _ (decode-Safe4 a ha.item_bytes)
                λ n _.
                  let count : ℤ = to_clamped_i32 n in
                  Safe-bind _ (λ n. n ≤ keys)
                    (fail_if (is_negative count || ltb_ℤ (pos keys) count) sig_count) _
                    (fail_if-Safe _ sig_count) λ _ range. count_from-Safe keys count range

  finish-Safe :
      (opcode : ℕ) (m : Machine) (i : ℕ) (success : Bool)
      → IsMachine env m
      → 1 ≤ i
      → i ≤ length m.stack
      → Safe (Kept env cs m) (finish_multisig env opcode m i success)
  unfolding finish_multisig
  finish-Safe opcode m i success h lo l =
      Safe-bind _ (Kept env cs m) (pop_many (i - 1) m.stack) _
        (pop_many-Safe (i - 1) m.stack h.stack_ok (omega arith))
        λ s hs. Safe-bind _ (Kept env cs m) (require 1 s) _ (require-Safe 1 s) λ _ l1.
          Safe-bind IsItem (Kept env cs m) (top 1 s) _ (top-Safe 1 s hs.0 (omega arith) l1)
            λ dummy _.
              Safe-bind _ (Kept env cs m)
                (fail_if (contains env.flags flag_nulldummy && not (length dummy == 0))
                  sig_nulldummy)
                _ (fail_if-Safe _ sig_nulldummy)
                λ _ _. Safe-bind (IsPopped s) (Kept env cs m) (pop s) _ (pop-Safe s hs.0 l1) λ p hp.
                  Safe-bind _ (Kept env cs m) (push_bool success p.1) _
                    (push_bool-Safe success p.1 hp.1)
                    λ t ht.
                      verdict-Safe env cs (opcode == Opcode.op_checkmultisigverify) success _ m t h
                        ht.0 (omega arith)

  -- On a well-formed machine, and with a checker that answers as the interface says,
  -- `OP_CHECKMULTISIG` and `OP_CHECKMULTISIGVERIFY` do not panic; a machine that they return is well
  -- formed, its opcode count within the limit, and has the same nest of conditions.
  pub checkmultisig-Safe :
      (opcode : ℕ) (m : Machine)
      → IsMachine env m
      → Safe (Kept env cs m) (checkmultisig env opcode m)
  unfolding checkmultisig
  checkmultisig-Safe opcode m h =
      Safe-bind _ (Kept env cs m) (fail_if (is_tapscript env.sig_version) tapscript_checkmultisig) _
        (fail_if-Safe _ tapscript_checkmultisig)
        λ _ v. Safe-bind (Keys m) (Kept env cs m) (key_count_of m) _ (key_count-Safe m h) λ k hk.
          Safe-bind _ (Kept env cs m) (sig_count_of k.0 k.1) _ (sig_count-Safe k.0 k.1 hk.1)
            λ sigs le.
              Safe-bind _ (Kept env cs m) (require (3 + k.0 + sigs) k.1.stack) _
                (require-Safe (3 + k.0 + sigs) k.1.stack)
                λ _ l.
                  Safe-then (Kept env cs m) (multisig_script_code env k.1 (3 + k.0) sigs) _
                    (multisig_code-Safe k.1 (3 + k.0) sigs hk.1 (omega arith) l)
                    λ code.
                      Safe-then (Kept env cs m)
                        (checkmultisig_verify 20 env k.1.stack 2 (3 + k.0) k.0 sigs code) _
                        (matching-Safe 20 k.1.stack 2 (3 + k.0) k.0 sigs code v hk.1.stack_ok
                          (omega arith) (omega arith) (omega arith) (omega arith) le hk.0)
                        λ success.
                          Safe-mono (Kept env cs k.1) (Kept env cs m) _
                            (λ m' hm. (hm.0, hm.1 ∙ hk.3))
                            (finish-Safe opcode k.1 (3 + k.0 + sigs) success hk.1 (omega arith) l)

  from_bool-Within : (b : Bool) → Within (2 ^ 31) (from_bool b)
  unfolding from_bool
  from_bool-Within true = omega arith
  from_bool-Within false = omega arith

  -- The count is raised and pushed.
  count-Safe :
      (m : Machine) (r : Bool × Machine) (n : ScriptNum)
      → Within (2 ^ 31) n
      → IsMachine env r.1
      → r.1.conditions ≡ m.conditions
      → Safe (Kept env cs m) (do
        sum ← num_add n (from_bool r.0)
        item ← encode sum
        s ← push item r.1.stack
        ok (record (r.1) { stack = s }))
  count-Safe m r n hn h e =
      Safe-then (Kept env cs m) (num_add n (from_bool r.0)) _
        (NoPanic-of _ _
          (num_add-Safe (2 ^ 31) n (from_bool r.0) (omega arith) hn (from_bool-Within r.0)))
        λ sum. Safe-bind IsEncoded (Kept env cs m) (encode sum) _ (encode-Safe sum) λ item hi.
          Safe-bind _ (Kept env cs m) (push item r.1.stack) _
            (push_length-Safe item r.1.stack (IsEncoded-IsItem item hi) h.stack_ok)
            λ s hs. (with_stack env cs r.1 s h hs.0, e)

  -- `OP_CHECKSIGADD`.
  pub checksigadd-Safe : (m : Machine) → IsMachine env m → Safe (Kept env cs m) (checksigadd env m)
  unfolding checksigadd
  checksigadd-Safe m h =
      Safe-bind _ (Kept env cs m) (fail_if (not (is_tapscript env.sig_version)) bad_opcode) _
        (fail_if-Safe _ bad_opcode)
        λ _ _. Safe-bind _ (Kept env cs m) (require 3 m.stack) _ (require-Safe 3 m.stack) λ _ l.
          Safe-bind (IsPopped m.stack) (Kept env cs m) (pop m.stack) _
            (pop-Safe m.stack h.stack_ok (omega arith))
            λ p hp.
              Safe-bind IsItem (Kept env cs m) (top 1 p.1) _
                (top-Safe 1 p.1 hp.1 (omega arith) (omega arith))
                λ a ha.
                  Safe-bind _ (Kept env cs m) (decode a 4) _ (decode-Safe4 a ha.item_bytes) λ n hn.
                    Safe-bind (IsPopped p.1) (Kept env cs m) (pop p.1) _
                      (pop-Safe p.1 hp.1 (omega arith))
                      λ q hq.
                        Safe-bind (IsPopped q.1) (Kept env cs m) (pop q.1) _
                          (pop-Safe q.1 hq.1 (omega arith))
                          λ t ht.
                            Safe-bind (Checked env cs (record m { stack = t.1 })) (Kept env cs m)
                              (eval_checksig env (record m { stack = t.1 }) t.0 p.0) _
                              (eval_checksig-Safe env cs (record m { stack = t.1 }) t.0 p.0
                                (with_stack env cs m t.1 h ht.1) ht.0)
                              λ r hr. count-Safe m r n hn hr.0 hr.2
