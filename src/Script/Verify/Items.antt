-- ===== src/Script/Verify/Items.antt =====
-- verify.rs: the pieces that hold of witness items, and what the verification is given.
use bitmigo.Prelude.{
  ℕ, ◌≤◌, ◌<◌, ◌≡◌, refl, sym, ap, Bool, true, false, not, List, [], ◌∷◌, reverse, Option, none,
  some, ltb, ◌==◌, if◌then◌else◌, length, arith, Bool-cases, inl, inr, length-append,
}
use mathlib.Core.Path.{subst}
use mathlib.Core.List.{reverse-cons}
use bitmigo.Script.Error.{
  ◌>>=◌, ◌>>◌, Safe, Safe-bind, Safe-mono, Safe-then, NoPanic, fail_if, fail_if-Safe, push_size,
  cleanstack, eval_false,
}
use bitmigo.Script.Num.{Bytes, cast_to_bool}
use bitmigo.Script.Num.Value.{All, IsByte, IsBytes}
use bitmigo.Script.Stack.{Stack, check_items, from_items, top}
use bitmigo.Script.Stack.Safety.{IsItem, IsStack, All-append}
use bitmigo.Script.Flags.{contains, flag_p2sh, flag_witness, flag_taproot}
use bitmigo.Script.Machine.{is_annex, IsAnnex, CheckerSafe}
use bitmigo.Script.Numeric.Safety.{HashesSafe}
use bitmigo.Script.Taproot.{parse_control}
use bitmigo.Script.Taproot.Control.{IsControl, is_control_size, Parses, parse_control-IsControl}
use bitmigo.Script.Verify.{Rules, ends_true, check_item_sizes, strip_annex, p2wpkh_script}

-- A witness item, as a script too: bytes, and 10,001 of them at most.
abbrev pub IsWitnessItem : Bytes → Type 0
IsWitnessItem item = IsBytes item × (length item ≤ 10001)

pub ends_true-Safe : (s : Stack) → IsStack s → NoPanic (ends_true s)
unfolding ends_true
ends_true-Safe [] h = tt
ends_true-Safe (a ∷ s) h = unfold top in ground arith

pub check_item_sizes-Safe :
    (items : List Bytes) → All IsBytes items → Safe (λ _. IsStack items) (check_item_sizes items)
unfolding check_item_sizes
check_item_sizes-Safe [] h = tt
check_item_sizes-Safe (item ∷ items) h =
    Safe-bind _ (λ _. IsStack (item ∷ items)) (fail_if (ltb 520 (length item)) push_size) _
      (fail_if-Safe _ push_size)
      λ _ e.
        Safe-mono (λ _. IsStack items) (λ _. IsStack (item ∷ items)) (check_item_sizes items)
          (λ _ hs. (record { item_bytes = h.0; item_length = ground arith }, hs))
          (check_item_sizes-Safe items h.1)

pub All-reverse : (P : Bytes → Type 0) (xs : List Bytes) → All P xs → All P (reverse xs)
All-reverse P [] h = tt
All-reverse P (x ∷ xs) h =
    subst (All P) (sym (reverse-cons x xs))
      (All-append P (reverse xs) (x ∷ []) (All-reverse P xs h.1) (h.0, tt))

pub length-reverse : (xs : List Bytes) → length (reverse xs) ≡ length xs
length-reverse [] = refl
length-reverse (x ∷ xs) = omega (
  arith,
  ap (λ (ys : List Bytes). length ys) (reverse-cons x xs),
  length-append (reverse xs) (x ∷ []),
  length-reverse xs,
)

pub check_items-Safe : (items : List Bytes) → IsStack items → NoPanic (check_items items)
unfolding check_items
check_items-Safe [] h = tt
check_items-Safe (item ∷ items) h = ground (arith, h.0.item_length, check_items-Safe items h.1)

pub from_items-Safe :
    (items : List Bytes)
    → IsStack items
    → Safe (λ s. IsStack s × (length s ≡ length items)) (from_items items)
unfolding from_items
from_items-Safe items h =
    Safe-then _ (check_items items) _ (check_items-Safe items h)
      λ _. (All-reverse IsItem items h, length-reverse items)

-- Every flag set in force, the checker and the third-party functions behave as the rules need.
pub record RulesSafe (rules : Rules) : Type 0 where
  pub checker_ok : CheckerSafe rules.checker
  pub hashes_ok : HashesSafe rules.hashes
  pub var_int_ok :
      (n : ℕ)
      → (1 ≤ length (rules.primitives.var_int n)) × (length (rules.primitives.var_int n) ≤ 9)
  pub p2sh_ok : contains rules.flags flag_witness ≡ true → contains rules.flags flag_p2sh ≡ true
  pub witness_ok :
      contains rules.flags flag_taproot ≡ true → contains rules.flags flag_witness ≡ true

pub cleanstack-Safe :
    (s : Stack)
    → IsStack s
    → NoPanic (do
      fail_if (not (length s == 1)) cleanstack
      value ← top 1 s
      fail_if (not (cast_to_bool value)) eval_false)
cleanstack-Safe [] h = ground arith
cleanstack-Safe (a ∷ s) h = unfold top in ground arith

pub parse_control-Safe : (bytes : Bytes) → Safe IsControl (parse_control bytes)
parse_control-Safe bytes = go (is_control_size (length bytes)) (parse_control-IsControl bytes)
  where
    go : (b : Bool) → Parses bytes b → Safe IsControl (parse_control bytes)
    go true (c, e, h, same) = subst (Safe IsControl) (sym e) h
    go false e = subst (Safe IsControl) (sym e) tt

-- The items without the annex.
abbrev pub Stripped : (Bytes → Type 0) → List Bytes → List Bytes × Option Bytes → Type 0
Stripped P items p = All P p.0 × (length p.0 ≤ length items)

pub strip_annex-Stripped :
    (P : Bytes → Type 0) (items : List Bytes) → All P items → Stripped P items (strip_annex items)
unfolding strip_annex
strip_annex-Stripped P [] h = (tt, omega arith)
strip_annex-Stripped P (a ∷ []) h = (h, omega arith)
strip_annex-Stripped P (a ∷ b ∷ items) h = go (is_annex a)
  where
    go :
        (c : Bool)
        → Stripped P (a ∷ b ∷ items) (if c then (b ∷ items, some a) else (a ∷ b ∷ items, none))
    go true = (h.1, omega arith)
    go false = (h, omega arith)

pub strip_annex-nonempty :
    (items : List Bytes) → 0 < length items → 0 < length (strip_annex items).0
unfolding strip_annex
strip_annex-nonempty [] h = absurd (omega arith)
strip_annex-nonempty (a ∷ []) h = omega arith
strip_annex-nonempty (a ∷ b ∷ items) h = ground arith

pub strip_annex-IsAnnex : (items : List Bytes) → IsAnnex (strip_annex items).1
unfolding strip_annex
strip_annex-IsAnnex [] = tt
strip_annex-IsAnnex (a ∷ []) = tt
strip_annex-IsAnnex (a ∷ b ∷ items) = elim (Bool-cases (is_annex a)) [
  | inl e ↦ ground (arith, e)
  | inr e ↦ ground (arith, e)
]

pub All-IsBytes : (items : List Bytes) → All IsWitnessItem items → All IsBytes items
All-IsBytes [] h = tt
All-IsBytes (item ∷ items) h = (h.0.0, All-IsBytes items h.1)

pub p2wpkh-Safe :
    (program : Bytes)
    → IsBytes program
    → length program ≡ 20
    → Safe IsWitnessItem (p2wpkh_script program)
unfolding p2wpkh_script
p2wpkh-Safe program h l = ground (
  arith,
  length-append program (0x88 ∷ 0xac ∷ []),
  All-append IsByte program (0x88 ∷ 0xac ∷ []) h (omega arith, (omega arith, tt)),
)
