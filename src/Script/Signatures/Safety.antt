-- ===== src/Script/Signatures/Safety.antt =====
-- The signature opcodes keep the machine well formed and do not panic.
use bitmigo.Prelude.{
  ℕ, ◌≤◌, ◌<◌, ◌^◌, ◌≡◌, ◌≢◌, ◌∙◌, refl, Bool, true, false, not, Option, none, some, length, arith,
  ◌==◌, if◌then◌else◌, ◌&&◌, length-append,
}
use bitmigo.Prelude.Int.{ℤ, pos, negsuc, ◌-ℤ◌}
use bitmigo.Script.Error.{
  tapscript_empty_pubkey, NoPanic, NoPanic-of, Safe-then, ok, Safe, Safe-bind, Safe-if, Safe-mono,
  fail_if, fail_if-Safe, ScriptError, ◌>>=◌, ◌>>◌,
}
use bitmigo.Script.Num.{Bytes}
use bitmigo.Script.Stack.{Stack, require, push_bool, pop, expect}
use bitmigo.Script.Stack.Safety.{IsItem, IsStack, IsPopped, require-Safe, pop-Safe, push_bool-Safe}
use bitmigo.Script.Opcode
use bitmigo.Script.Reader.{push_header, push_encoding}
use bitmigo.Script.FindDelete.{find_and_delete}
use bitmigo.Script.FindDelete.Safety.{find_and_delete-Safe}
use bitmigo.Script.Der.{check_signature_encoding}
use bitmigo.Script.Der.Safety.{check_encoding-Safe}
use bitmigo.Script.Machine.{
  IsAnnex, SigVersion, tapscript, is_tapscript, is_base, tapscript_leaf, CheckerSafe, TapscriptExec,
  Env, Machine,
}
use bitmigo.Script.Signatures.{
  script_code, delete_signature, eval_checksig_pre_tapscript, charge, eval_checksig_tapscript,
  eval_checksig, checksig,
}

-- A budget that is not negative, and fits.
abbrev pub IsBudget : ℤ → Type 0
IsBudget (pos n) = n < 2 ^ 63
IsBudget (negsuc n) = ⊥

-- The execution data are those of a tapscript exactly under its signature version, with a budget
-- and, where there is one, an annex.
abbrev pub IsExec : SigVersion → Option TapscriptExec → Type 0
IsExec v none = is_tapscript v ≡ false
IsExec v (some t) = (is_tapscript v ≡ true) × (IsBudget t.validation_weight_left × IsAnnex t.annex)

-- The invariant of a machine, but for the nest of conditions.
pub record IsMachine (env : Env) (m : Machine) : Type 0 where
  pub stack_ok : IsStack m.stack
  pub altstack_ok : IsStack m.altstack
  pub ops_ok : m.op_count ≤ 201
  pub separator_ok : m.codesep_start ≤ length env.script
  pub exec_ok : IsExec env.sig_version m.exec.tapscript_exec

push_header-Safe : (n : ℕ) → n < 2 ^ 32 → Safe (λ h. 0 < length h) (push_header n)
unfolding push_header
push_header-Safe n h = ground arith

pub push_encoding-Safe :
    (payload : Bytes) → length payload < 2 ^ 32 → NoPanic (push_encoding payload)
unfolding push_encoding
push_encoding-Safe payload h =
    Safe-bind (λ b. 0 < length b) (λ _. Unit) (push_header (length payload)) _
      (push_header-Safe (length payload) h) λ b hb. ground (arith, length-append b payload)

pub delete_signature-Safe :
    (code signature : Bytes) → IsItem signature → NoPanic (delete_signature code signature)
unfolding delete_signature
delete_signature-Safe code signature h =
    Safe-then (λ _. Unit) (push_encoding signature) _ (push_encoding-Safe signature (omega arith))
      λ p.
        Safe-then (λ _. Unit) (find_and_delete code p) _
          (NoPanic-of _ (find_and_delete code p) (find_and_delete-Safe code p)) λ _. tt

charge-Safe :
    (success : Bool) (t : TapscriptExec)
    → IsBudget t.validation_weight_left × IsAnnex t.annex
    → Safe (λ u. IsBudget u.validation_weight_left × IsAnnex u.annex) (charge success t)
unfolding charge ◌-ℤ◌
charge-Safe false t h = h
charge-Safe true t h = ground arith

expect_exec-Safe :
    (v : SigVersion) (o : Option TapscriptExec)
    → IsExec v o
    → is_tapscript v ≡ true
    → Safe (λ t. IsBudget t.validation_weight_left × IsAnnex t.annex) (expect o)
expect_exec-Safe v none h e = ground arith
expect_exec-Safe v (some t) h e = h.1

module _ (env : Env) (cs : CheckerSafe env.checker) where
  pub script_code-Safe : (m : Machine) → IsMachine env m → NoPanic (script_code env m)
  unfolding script_code
  script_code-Safe m h = ground arith

  pub not_tapscript : is_tapscript env.sig_version ≡ false → env.sig_version ≢ tapscript
  not_tapscript v e = ground arith

  pre_tapscript-Safe :
      (m : Machine) (signature pubkey : Bytes)
      → IsMachine env m
      → IsItem signature
      → is_tapscript env.sig_version ≡ false
      → NoPanic (eval_checksig_pre_tapscript env m signature pubkey)
  unfolding eval_checksig_pre_tapscript
  pre_tapscript-Safe m signature pubkey h hs v =
      Safe-then (λ _. Unit) (script_code env m) _ (script_code-Safe m h)
        λ whole.
          Safe-then (λ _. Unit)
            (if is_base env.sig_version then delete_signature whole signature else ok whole) _
            (Safe-if (λ _. Unit) (is_base env.sig_version) _ _
              (λ _. delete_signature-Safe whole signature hs) λ _. tt)
            λ code.
              Safe-then (λ _. Unit) (check_signature_encoding signature env.flags) _
                (check_encoding-Safe signature env.flags)
                λ _. cs.ecdsa_safe signature pubkey code env.sig_version (not_tapscript v)

  -- The machine after a signature check: only the execution data may differ.
  abbrev pub Checked : Machine → Bool × Machine → Type 0
  Checked m p = IsMachine env p.1 × (p.1.stack ≡ m.stack) × (p.1.conditions ≡ m.conditions)

  tapscript-Safe :
      (m : Machine) (signature pubkey : Bytes)
      → IsMachine env m
      → is_tapscript env.sig_version ≡ true
      → Safe (Checked m) (eval_checksig_tapscript env m signature pubkey)
  unfolding eval_checksig_tapscript
  tapscript-Safe m signature pubkey h v =
      let success : Bool = not (length signature == 0) in
      Safe-bind _ (Checked m) (expect m.exec.tapscript_exec) _
        (expect_exec-Safe env.sig_version m.exec.tapscript_exec h.exec_ok v)
        λ t ht. Safe-bind _ (Checked m) (charge success t) _ (charge-Safe success t ht) λ u hu.
          Safe-bind _ (Checked m) (fail_if (length pubkey == 0) tapscript_empty_pubkey) _
            (fail_if-Safe _ _)
            λ _ _.
              Safe-then (Checked m)
                (if length pubkey == 32 && success
                  then env.checker.check_schnorr signature pubkey
                      (tapscript_leaf u.leaf_hash m.exec.codesep_pos) u.annex
                  else ok tt)
                _
                (Safe-if (λ _. Unit) (length pubkey == 32 && success) _ _
                  (λ e. cs.schnorr_safe signature pubkey _ u.annex (ground arith) hu.1) λ _. tt)
                λ _. (
                  record {
                    stack_ok = h.stack_ok;
                    altstack_ok = h.altstack_ok;
                    ops_ok = h.ops_ok;
                    separator_ok = h.separator_ok;
                    exec_ok = (v, hu);
                  },
                  refl,
                  refl,
                )

  pub eval_checksig-Safe :
      (m : Machine) (signature pubkey : Bytes)
      → IsMachine env m
      → IsItem signature
      → Safe (Checked m) (eval_checksig env m signature pubkey)
  unfolding eval_checksig
  eval_checksig-Safe m signature pubkey h hs =
      Safe-if (Checked m) (is_tapscript env.sig_version) _ _ (tapscript-Safe m signature pubkey h)
        λ v.
          Safe-then (Checked m) (eval_checksig_pre_tapscript env m signature pubkey) _
            (pre_tapscript-Safe m signature pubkey h hs v) λ _. (h, refl, refl)

  -- An opcode leaves a well-formed machine, and the nest of conditions alone.
  abbrev pub Kept : Machine → Machine → Type 0
  Kept m m' = IsMachine env m' × (m'.conditions ≡ m.conditions)

  pub with_stack :
      (m : Machine) (s : Stack)
      → IsMachine env m
      → IsStack s
      → IsMachine env (record m { stack = s })
  with_stack m s h hs = record {
    stack_ok = hs;
    altstack_ok = h.altstack_ok;
    ops_ok = h.ops_ok;
    separator_ok = h.separator_ok;
    exec_ok = h.exec_ok;
  }

  -- The verdict is pushed, and dropped again by a `VERIFY` opcode unless it fails.
  pub verdict-Safe :
      (verify success : Bool) (e : ScriptError) (m : Machine) (s : Stack)
      → IsMachine env m
      → IsStack s
      → 1 ≤ length s
      → Safe (Kept m) (
          if verify
          then (do fail_if (not success) e; (_, t) ← pop s; ok (record m { stack = t }))
          else ok (record m { stack = s }))
  verdict-Safe verify success e m s h hs l =
      Safe-if (Kept m) verify _ _
        (λ _. Safe-bind _ (Kept m) (fail_if (not success) e) _ (fail_if-Safe _ e) λ _ _.
          Safe-bind (IsPopped s) (Kept m) (pop s) _ (pop-Safe s hs l)
            λ p hp. (with_stack m p.1 h hp.1, refl))
        λ _. (with_stack m s h hs, refl)

  pub checksig-Safe :
      (opcode : ℕ) (m : Machine) → IsMachine env m → Safe (Kept m) (checksig env opcode m)
  unfolding checksig
  checksig-Safe opcode m h =
      Safe-bind _ (Kept m) (require 2 m.stack) _ (require-Safe 2 m.stack) λ _ l.
        Safe-bind (IsPopped m.stack) (Kept m) (pop m.stack) _
          (pop-Safe m.stack h.stack_ok (omega arith))
          λ p hp.
            Safe-bind (IsPopped p.1) (Kept m) (pop p.1) _ (pop-Safe p.1 hp.1 (omega arith)) λ q hq.
              Safe-bind (Checked (record m { stack = q.1 })) (Kept m)
                (eval_checksig env (record m { stack = q.1 }) q.0 p.0) _
                (eval_checksig-Safe (record m { stack = q.1 }) q.0 p.0 (with_stack m q.1 h hq.1)
                  hq.0)
                λ r hr.
                  Safe-bind _ (Kept m) (push_bool r.0 r.1.stack) _
                    (push_bool-Safe r.0 r.1.stack hr.0.stack_ok)
                    λ s hs.
                      Safe-mono (Kept r.1) (Kept m) _ (λ m' hm. (hm.0, hm.1 ∙ hr.2))
                        (verdict-Safe (opcode == Opcode.op_checksigverify) r.0 _ r.1 s hr.0 hs.0
                          (omega arith))
