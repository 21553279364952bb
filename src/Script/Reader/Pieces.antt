-- ===== src/Script/Reader/Pieces.antt =====
-- Pieces of a script between two positions, and what `read_op` of reader.rs reads at one.
use bitmigo.Prelude.{
  ℕ, zero, suc, ◌-◌, ◌≤◌, ◌<◌, ◌≡◌, refl, sym, ap, ◌∙◌, [], ◌∷◌, ◌++◌, some, length, get_elem?,
  take, drop, arith, length-drop,
}
use mathlib.Core.List.{append-nil}
use bitmigo.Script.Error.{Outcome, ok, err, panic, Returns}
use bitmigo.Script.Num.{Bytes}
use bitmigo.Script.Stack.{expect}
use bitmigo.Script.Reader.{OpRead, whole, truncated, slice, read_op}
use bitmigo.Script.Reader.Safety.{Reads, op_end, cut_end, read_op-Reads}

-- The bytes of the script from `first` to `last`.
abbrev pub piece : Bytes → ℕ → ℕ → Bytes
piece script first last = take (last - first) (drop first script)

take_empty : (n : ℕ) → take {A = ℕ} n [] ≡ []
take_empty zero = refl
take_empty (suc n) = refl

drop_empty : (n : ℕ) → drop {A = ℕ} n [] ≡ []
drop_empty zero = refl
drop_empty (suc n) = refl

pub piece-drop :
    (script : Bytes) (a b : ℕ) → a ≤ b → piece script a b ++ drop b script ≡ drop a script
piece-drop [] a b h = rw (drop_empty a, drop_empty b, take_empty (b - a))
piece-drop (x ∷ xs) zero zero h = refl
piece-drop (x ∷ xs) zero (suc b) h = ground (arith, piece-drop xs zero b (omega arith))
piece-drop (x ∷ xs) (suc a) zero h = absurd (omega arith)
piece-drop (x ∷ xs) (suc a) (suc b) h = ground (arith, piece-drop xs a b (omega arith))

pub piece_self : (script : Bytes) (a : ℕ) → piece script a a ≡ []
piece_self script a =
    let nothing : a - a ≡ 0 = omega arith in ap (λ (n : ℕ). take n (drop a script)) nothing

length_zero : (xs : Bytes) → length xs ≡ 0 → [] ≡ xs
length_zero [] h = refl
length_zero (x ∷ xs) h = absurd (omega (arith, h))

pub drop_all : (script : Bytes) (n : ℕ) → n ≡ length script → [] ≡ drop n script
drop_all script n h = length_zero (drop n script) (omega (arith, length-drop n script))

pub op_end-after : (script : Bytes) (position opcode : ℕ) → position < op_end script position opcode
op_end-after script position opcode = ground arith

pub slice-piece :
    (script : Bytes) (a b : ℕ)
    → a ≤ b
    → b ≤ length script
    → expect (slice script a b) ≡ ok (piece script a b)
slice-piece script a b h k = ground arith

pub piece_last :
    (script : Bytes) (a : ℕ) → a ≤ length script → piece script a (length script) ≡ drop a script
piece_last script a h =
    sym (append-nil (piece script a (length script)))
    ∙ ap (λ (t : Bytes). piece script a (length script) ++ t) (drop_all script (length script) refl)
    ∙ piece-drop script a (length script) h

pub pieces :
    (script : Bytes) (a b c : ℕ)
    → a ≤ b
    → b ≤ c
    → piece script a b ++ piece script b c ≡ piece script a c
pieces [] a b c h k =
    rw (drop_empty a, drop_empty b, take_empty (b - a), take_empty (c - b), take_empty (c - a))
pieces (x ∷ xs) zero zero c h k = refl
pieces (x ∷ xs) zero (suc b) zero h k = absurd (omega arith)
pieces (x ∷ xs) zero (suc b) (suc c) h k =
    ground (arith, pieces xs zero b c (omega arith) (omega arith))
pieces (x ∷ xs) (suc a) zero c h k = absurd (omega arith)
pieces (x ∷ xs) (suc a) (suc b) zero h k = absurd (omega arith)
pieces (x ∷ xs) (suc a) (suc b) (suc c) h k =
    ground (arith, pieces xs a b c (omega arith) (omega arith))

same_opcode :
    (script : Bytes) (position a b : ℕ)
    → get_elem? script position ≡ some a
    → get_elem? script position ≡ some b
    → a ≡ b
same_opcode script position a b h k = let both : some a ≡ some b = sym h ∙ k in ground (arith, both)

-- What a step that reads the opcode at `position` is.
step-whole :
    (script : Bytes) (position opcode : ℕ) (step : OpRead)
    → get_elem? script position ≡ some opcode
    → op_end script position opcode ≤ length script
    → Reads script position step
    → step ≡ whole opcode (op_end script position opcode)
step-whole script position opcode (whole o next) e h hr =
    ap (λ (n : ℕ). whole o n) hr.3
    ∙ ap (λ (x : ℕ). whole x (op_end script position x))
        (same_opcode script position o opcode hr.2 e)
step-whole script position opcode (truncated next) e h hr =
    let (o, here, beyond) = hr.2 in
    let end_here : op_end script position o ≡ op_end script position opcode =
      ap (op_end script position) (same_opcode script position o opcode here e) in
    absurd (omega (arith, h, beyond, end_here))

step-cut :
    (script : Bytes) (position opcode : ℕ) (step : OpRead)
    → get_elem? script position ≡ some opcode
    → length script < op_end script position opcode
    → Reads script position step
    → step ≡ truncated (cut_end script position opcode)
step-cut script position opcode (whole o next) e h hr =
    let end_here : op_end script position o ≡ op_end script position opcode =
      ap (op_end script position) (same_opcode script position o opcode hr.2 e) in
    absurd (omega (arith, h, hr.1, hr.3, end_here))
step-cut script position opcode (truncated next) e h hr =
    let (o, here, stops) = hr.3 in
    ap (λ (n : ℕ). truncated n)
      (stops ∙ ap (cut_end script position) (same_opcode script position o opcode here e))

outcome_value :
    (o : Outcome OpRead) (P : OpRead → Type 0) (step : OpRead)
    → Returns P o
    → ((s : OpRead) → P s → s ≡ step)
    → o ≡ ok step
outcome_value (ok s) P step h k = ap ok (k s h)
outcome_value (err e) P step h k = absurd h
outcome_value panic P step h k = absurd h

pub read_op-whole :
    (script : Bytes) (position opcode : ℕ)
    → position < length script
    → get_elem? script position ≡ some opcode
    → op_end script position opcode ≤ length script
    → read_op script position ≡ ok (whole opcode (op_end script position opcode))
read_op-whole script position opcode h e le =
    outcome_value (read_op script position) (Reads script position) _
      (read_op-Reads script position h) (λ s hr. step-whole script position opcode s e le hr)

pub read_op-cut :
    (script : Bytes) (position opcode : ℕ)
    → position < length script
    → get_elem? script position ≡ some opcode
    → length script < op_end script position opcode
    → read_op script position ≡ ok (truncated (cut_end script position opcode))
read_op-cut script position opcode h e lt =
    outcome_value (read_op script position) (Reads script position) _
      (read_op-Reads script position h) (λ s hr. step-cut script position opcode s e lt hr)
