-- ===== src/Script/Programs/Safety.antt =====
-- The patterns and scans of verify.rs answer without a panic.
use bitmigo.Prelude.{
  ℕ, zero, suc, ◌+◌, ◌^◌, ◌≤◌, ◌<◌, ◌≡◌, sym, ap, Bool, Option, none, some, length, arith,
}
use mathlib.Core.Path.{subst}
use bitmigo.Script.Error.{Outcome, ok, Safe-bind, NoPanic}
use bitmigo.Script.Num.{Bytes}
use bitmigo.Script.Num.Value.{IsBytes}
use bitmigo.Script.Reader.{Reader, reader_new, Next, finished, yield, failed, next_op}
use bitmigo.Script.Reader.Safety.{IsReader, Advances, next_op-Safe}
use bitmigo.Script.Programs.{scan_round, scan, is_push_only, has_op_success}

-- A reader of a script of bytes that is short enough to count its opcodes.
pub record IsScan (r : Reader) : Type 0 where
  pub reader_ok : IsReader r
  pub script_ok : IsBytes r.script
  pub length_ok : length r.script < 2 ^ 32

pub IsScan-next :
    (r r' : Reader)
    → IsScan r
    → r'.script ≡ r.script
    → r.position < r'.position
    → r'.position ≤ length r.script
    → r'.ops_read ≡ r.ops_read + 1
    → IsScan r'
IsScan-next r r' h e lt le c = record {
  reader_ok = record {
    inside = omega (arith, ap (λ (s : Bytes). length s) e);
    counted = omega (arith, h.reader_ok.counted);
  };
  script_ok = subst IsBytes (sym e) h.script_ok;
  length_ok = omega (arith, ap (λ (s : Bytes). length s) e, h.length_ok);
}

pub IsScan-new :
    (script : Bytes) → IsBytes script → length script < 2 ^ 32 → IsScan (reader_new script)
unfolding reader_new
IsScan-new script h l = record {
  reader_ok = record { inside = omega arith; counted = omega arith };
  script_ok = h;
  length_ok = l;
}

module _ (answer : ℕ → Option Bool) (at_failure : Outcome Bool) (at_end : Bool)
    (hf : NoPanic at_failure) where
  scan_round-Safe :
      (next_round : Reader → Outcome Bool) (r : Reader) (next : Next) (r' : Reader)
      → IsScan r
      → Advances r (next, r')
      → (IsScan r' → r'.script ≡ r.script → r.position < r'.position → NoPanic (next_round r'))
      → NoPanic (scan_round next_round answer at_failure at_end next r')
  scan_round-Safe next_round r finished r' h a k = tt
  scan_round-Safe next_round r (failed e) r' h a k = hf
  scan_round-Safe next_round r (yield op) r' h a k = go (answer op.opcode)
    where
      go : (o : Option Bool) → NoPanic (elim o [ some b ↦ ok b | none ↦ next_round r' ])
      go (some b) = tt
      go none = k (IsScan-next r r' h a.0 a.1 a.2 a.3) a.0 a.1

  scan-Safe :
      (fuel : ℕ) (r : Reader)
      → IsScan r
      → length r.script < fuel + r.position
      → NoPanic (scan fuel answer at_failure at_end r)
  unfolding scan
  scan-Safe zero r h f = absurd (omega (arith, h.reader_ok.inside))
  scan-Safe (suc fuel) r h f =
      Safe-bind (Advances r) (λ _. Unit) (next_op r) _
        (next_op-Safe r h.reader_ok h.script_ok h.length_ok)
        λ p a.
          scan_round-Safe (λ r₁. scan fuel answer at_failure at_end r₁) r p.0 p.1 h a
            λ h' e lt. scan-Safe fuel p.1 h' (omega (arith, ap (λ (s : Bytes). length s) e))

-- On any script of bytes shorter than 2^32, `is_push_only` and the `OP_SUCCESS` scan end without a
-- panic.
pub scans-NoPanic :
    (script : Bytes)
    → IsBytes script
    → length script < 2 ^ 32
    → NoPanic (is_push_only script) × NoPanic (has_op_success script)
unfolding is_push_only has_op_success
scans-NoPanic script h l = (
  scan-Safe _ _ _ tt (suc (length script)) (reader_new script) (IsScan-new script h l)
      (unfold reader_new in omega arith),
  scan-Safe _ _ _ tt (suc (length script)) (reader_new script) (IsScan-new script h l)
      (unfold reader_new in omega arith),
)
