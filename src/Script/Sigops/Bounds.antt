-- ===== src/Script/Sigops/Bounds.antt =====
-- The counts of sigops.rs: their bounds, and no panics.
use bitmigo.Prelude.{
  ℕ, zero, suc, ◌+◌, ◌*◌, ◌^◌, ◌≤◌, ◌<◌, ◌≡◌, refl, ap, ◌∙◌, true, not, Option, none, some, [], ◌∷◌,
  List, length, arith, ltb,
}
use mathlib.Core.Path.{subst}
use bitmigo.Script.Error.{Outcome, ok, Safe, Safe-bind, Safe-if, Safe-mono, NoPanic, check}
use bitmigo.Script.Num.{Bytes}
use bitmigo.Script.Num.Value.{All, IsBytes}
use bitmigo.Script.Opcode
use bitmigo.Script.Opcode.{small_integer}
use bitmigo.Script.Flags.{ScriptFlags, contains, flag_p2sh, flag_witness}
use bitmigo.Script.Reader.{Reader, reader_new, Next, finished, yield, failed, next_op}
use bitmigo.Script.Reader.Safety.{Advances, next_op-Safe}
use bitmigo.Script.Programs.{is_pay_to_script_hash, witness_program}
use bitmigo.Script.Programs.Safety.{IsScan, IsScan-next, IsScan-new}
use bitmigo.Script.Programs.Witness.{IsProgram, IsProgram-empty, witness_program-Safe}
use bitmigo.Script.Sigops.{
  SigOpMode, accurate, key_count, sigops_of, sigop_round, sigop_loop, sigop_count, last_push_round,
  last_push_loop, last_push, redeem_sigops, p2sh_sigop_count, last_item,
  witness_program_sigop_count, program_sigops, redeem_program, witness_sigop_count,
}

sigops_of-Safe :
    (mode : SigOpMode) (previous opcode : ℕ) → Safe (λ n. n ≤ 20) (sigops_of mode previous opcode)
unfolding sigops_of small_integer key_count
sigops_of-Safe mode previous opcode = ground arith

module _ (mode : SigOpMode) (size : ℕ) (small : size < 2 ^ 27) where
  abbrev Counted : ℕ → Type 0
  Counted n = n ≤ 20 * size

  round-Safe :
      (next_round : Reader → ℕ → ℕ → Outcome ℕ) (count previous : ℕ) (r : Reader) (next : Next)
      (r' : Reader)
      → IsScan r
      → length r.script ≡ size
      → count ≤ 20 * r.position
      → Advances r (next, r')
      → ((c p : ℕ)
          → IsScan r'
          → length r'.script ≡ size
          → c ≤ 20 * r'.position
          → Safe Counted (next_round r' c p))
      → Safe Counted (sigop_round next_round mode count previous next r')
  unfolding sigop_round
  round-Safe next_round count previous r finished r' h e l a k = omega (arith, h.reader_ok.inside)
  round-Safe next_round count previous r (failed x) r' h e l a k = omega (arith, h.reader_ok.inside)
  round-Safe next_round count previous r (yield op) r' h e l a k =
      Safe-bind (λ n. n ≤ 20) Counted (sigops_of mode previous op.opcode) _
        (sigops_of-Safe mode previous op.opcode)
        λ added ha.
          Safe-bind (λ _. Unit) Counted (check (ltb (count + added) (2 ^ 32))) _
            (ground (arith, a.1, a.2))
            λ _ _.
              k (count + added) op.opcode (IsScan-next r r' h a.0 a.1 a.2 a.3)
                (ap (λ (s : Bytes). length s) a.0 ∙ e) (omega (arith, a.1))

  loop-Safe :
      (left : ℕ) (r : Reader) (count previous : ℕ)
      → IsScan r
      → length r.script ≡ size
      → count ≤ 20 * r.position
      → Safe Counted (sigop_loop left mode r count previous)
  unfolding sigop_loop
  loop-Safe zero r count previous h e l = omega (arith, h.reader_ok.inside)
  loop-Safe (suc left) r count previous h e l =
      Safe-bind (Advances r) Counted (next_op r) _
        (next_op-Safe r h.reader_ok h.script_ok h.length_ok)
        λ p a.
          round-Safe (λ r₁ c q. sigop_loop left mode r₁ c q) count previous r p.0 p.1 h e l a
            λ c q h' e' l'. loop-Safe left p.1 c q h' e' l'

-- A script of bytes shorter than 2^27 is counted without a panic or an overflow, at most 20
-- signature operations for each of its bytes.
pub sigop_count-le :
    (script : Bytes) (mode : SigOpMode)
    → IsBytes script
    → length script < 2 ^ 27
    → Safe (λ n. n ≤ 20 * length script) (sigop_count script mode)
unfolding sigop_count
sigop_count-le script mode h l =
    Safe-bind (Counted mode (length script) l) (λ n. n ≤ 20 * length script)
      (sigop_loop (suc (length script)) mode (reader_new script) 0 Opcode.op_invalidopcode) _
      (loop-Safe mode (length script) l (suc (length script)) (reader_new script) 0
        Opcode.op_invalidopcode (IsScan-new script h (omega arith)) (unfold reader_new in refl)
        (omega arith))
      λ n hn. ground arith

-- A string of bytes that can be counted.
abbrev pub IsCountable : Bytes → Type 0
IsCountable script = IsBytes script × (length script < 2 ^ 27)

-- A push found is no longer than the script that it is in.
abbrev Found : Bytes → Option Bytes → Type 0
Found script none = Unit
Found script (some bytes) = IsBytes bytes × (length bytes ≤ length script)

module _ (script : Bytes) where
  last_push_round-Safe :
      (next_round : Reader → Bytes → Outcome (Option Bytes)) (last : Bytes) (r : Reader)
      (next : Next) (r' : Reader)
      → IsScan r
      → r.script ≡ script
      → Found script (some last)
      → Advances r (next, r')
      → ((l : Bytes)
          → IsScan r'
          → r'.script ≡ script
          → Found script (some l)
          → Safe (Found script) (next_round r' l))
      → Safe (Found script) (last_push_round next_round last next r')
  unfolding last_push_round
  last_push_round-Safe next_round last r finished r' h e l a k = l
  last_push_round-Safe next_round last r (failed x) r' h e l a k = tt
  last_push_round-Safe next_round last r (yield op) r' h e l a k =
      Safe-if (Found script) (ltb Opcode.op_16 op.opcode) (ok none) _ (λ _. tt)
        λ _.
          k op.payload (IsScan-next r r' h a.0 a.1 a.2 a.3) (a.0 ∙ e)
            (a.5, omega (arith, a.6, ap (λ (s : Bytes). length s) e))

  last_push_loop-Safe :
      (left : ℕ) (r : Reader) (last : Bytes)
      → IsScan r
      → r.script ≡ script
      → Found script (some last)
      → Safe (Found script) (last_push_loop left r last)
  unfolding last_push_loop
  last_push_loop-Safe zero r last h e l = l
  last_push_loop-Safe (suc left) r last h e l =
      Safe-bind (Advances r) (Found script) (next_op r) _
        (next_op-Safe r h.reader_ok h.script_ok h.length_ok)
        λ p a.
          last_push_round-Safe (λ r₁ b. last_push_loop left r₁ b) last r p.0 p.1 h e l a
            λ b h' e' l'. last_push_loop-Safe left p.1 b h' e' l'

last_push-Safe : (script : Bytes) → IsCountable script → Safe (Found script) (last_push script)
unfolding last_push
last_push-Safe script (h, l) =
    last_push_loop-Safe script (suc (length script)) (reader_new script) []
      (IsScan-new script h (omega arith)) (unfold reader_new in refl) (tt, omega arith)

redeem_sigops-Safe :
    (script : Bytes) (o : Option Bytes)
    → length script < 2 ^ 27
    → Found script o
    → Safe (λ n. n ≤ 20 * length script) (redeem_sigops o)
redeem_sigops-Safe script none l h = omega arith
redeem_sigops-Safe script (some bytes) l h =
    Safe-mono (λ n. n ≤ 20 * length bytes) (λ n. n ≤ 20 * length script)
      (sigop_count bytes accurate) (λ n hn. omega (arith, h.1))
      (sigop_count-le bytes accurate h.0 (omega (arith, h.1)))

-- A `scriptSig` of bytes shorter than 2^27 costs 20 signature operations for each of its bytes at
-- most through the redeem script that it pushes, counted without a panic.
pub p2sh_sigop_count-le :
    (script_pubkey script_sig : Bytes)
    → IsCountable script_sig
    → Safe (λ n. n ≤ 20 * length script_sig) (p2sh_sigop_count script_pubkey script_sig)
unfolding p2sh_sigop_count
p2sh_sigop_count-le script_pubkey script_sig h =
    Safe-if _ (not (is_pay_to_script_hash script_pubkey)) (ok 0) _ (λ _. omega arith)
      λ _.
        Safe-bind (Found script_sig) _ (last_push script_sig) _ (last_push-Safe script_sig h)
          λ o ho. redeem_sigops-Safe script_sig o h.1 ho

last_item-All :
    (P : Bytes → Type 0) (items : List Bytes) (item : Bytes)
    → All P items
    → last_item items ≡ some item
    → P item
last_item-All P [] item h e = absurd (ground (arith, e))
last_item-All P (a ∷ []) item h e = subst P (ground (arith, e)) h.0
last_item-All P (a ∷ b ∷ items) item h e = last_item-All P (b ∷ items) item h.1 e

last_sigops-NoPanic :
    (witness : List Bytes) → All IsCountable witness → NoPanic (redeem_sigops (last_item witness))
last_sigops-NoPanic [] h = tt
last_sigops-NoPanic (a ∷ []) h =
    Safe-mono (λ n. n ≤ 20 * length a) (λ _. Unit) (sigop_count a accurate) (λ n hn. tt)
      (sigop_count-le a accurate h.0.0 h.0.1)
last_sigops-NoPanic (a ∷ b ∷ items) h = last_sigops-NoPanic (b ∷ items) h.1

program_sigops-NoPanic :
    (script : Bytes) (o : Option (ℕ × Bytes)) (witness : List Bytes) (otherwise : Outcome ℕ)
    → IsProgram script o
    → All IsCountable witness
    → NoPanic otherwise
    → NoPanic (program_sigops o witness otherwise)
unfolding witness_program_sigop_count
program_sigops-NoPanic script none witness otherwise p h k = k
program_sigops-NoPanic script (some (v, program)) witness otherwise p h k =
    ground (arith, p.1, p.2, last_sigops-NoPanic witness h)

redeem_program-Safe :
    (o : Option Bytes) → Safe (λ p. (script : Bytes) × IsProgram script p) (redeem_program o)
redeem_program-Safe none = ([], IsProgram-empty)
redeem_program-Safe (some script) =
    Safe-mono (IsProgram script) _ (witness_program script) (λ p h. (script, h))
      (witness_program-Safe script)

-- The witness count of an input whose flags set P2SH with WITNESS, and whose `scriptSig` and
-- witness items are bytes, each shorter than 2^27, does not panic.
pub witness_sigop_count-NoPanic :
    (script_sig script_pubkey : Bytes) (witness : List Bytes) (flags : ScriptFlags)
    → IsCountable script_sig
    → All IsCountable witness
    → (contains flags flag_witness ≡ true → contains flags flag_p2sh ≡ true)
    → NoPanic (witness_sigop_count script_sig script_pubkey witness flags)
unfolding witness_sigop_count
witness_sigop_count-NoPanic script_sig script_pubkey witness flags h hw hf =
    Safe-if _ (not (contains flags flag_witness)) (ok 0) _ (λ _. tt)
      λ e.
        Safe-bind (λ _. Unit) _ (check (contains flags flag_p2sh)) _ (ground (arith, hf, e))
          λ _ _.
            Safe-bind (IsProgram script_pubkey) _ (witness_program script_pubkey) _
              (witness_program-Safe script_pubkey)
              λ o ho. program_sigops-NoPanic script_pubkey o witness _ ho hw (
                Safe-if _ (is_pay_to_script_hash script_pubkey) _ (ok 0)
                  (λ _.
                    Safe-bind (Found script_sig) _ (last_push script_sig) _
                      (last_push-Safe script_sig h)
                      λ redeem hr.
                        Safe-bind (λ p. (script : Bytes) × IsProgram script p) _
                          (redeem_program redeem) _ (redeem_program-Safe redeem)
                          λ p hp. program_sigops-NoPanic hp.0 p witness (ok 0) hp.1 hw tt)
                  λ _. tt)
