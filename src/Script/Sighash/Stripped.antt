-- ===== src/Script/Sighash/Stripped.antt =====
-- The script code of the legacy digest, sighash.rs: what is left of a script without its separators.
use bitmigo.Prelude.{
  ℕ, zero, suc, ◌+◌, ◌≤◌, ◌<◌, ◌≡◌, refl, ap, ◌∙◌, [], ◌∷◌, ◌++◌, some, length, get_elem?, arith,
  leb, ◌==◌, Bool-cases, inl, inr,
}
use bitmigo.Script.Num.{Bytes}
use bitmigo.Script.Reader.Safety.{op_end, cut_end, get_elem?-some}
use bitmigo.Script.Reader.Pieces.{piece, op_end-after}

-- From an opcode's boundary on: the number of separators, OP_CODESEPARATOR, and the bytes that are
-- left without them. Of a push that the end of the script cuts off, the opcode's byte is left, and
-- its length if all of that is there.
pub data Strips (script : Bytes) : ℕ → ℕ → Bytes → Type 0 where
  at_end : {position : ℕ} → position ≡ length script → Strips script position 0 []
  at_cut :
      {position : ℕ} (opcode : ℕ)
      → get_elem? script position ≡ some opcode
      → length script < op_end script position opcode
      → Strips script position 0 (piece script position (cut_end script position opcode))
  separator :
      {position count : ℕ} {body : Bytes}
      → get_elem? script position ≡ some 0xab
      → Strips script (position + 1) count body
      → Strips script position (suc count) body
  keep :
      {position next count : ℕ} {body : Bytes} (opcode : ℕ)
      → get_elem? script position ≡ some opcode
      → ¬ (opcode ≡ 0xab)
      → next ≡ op_end script position opcode
      → next ≤ length script
      → Strips script next count body
      → Strips script position count (piece script position next ++ body)

pub get_elem?-inside : (script : Bytes) (i b : ℕ) → get_elem? script i ≡ some b → i < length script
get_elem?-inside [] i b h = absurd (ground (arith, h))
get_elem?-inside (x ∷ xs) zero b h = omega arith
get_elem?-inside (x ∷ xs) (suc i) b h = omega (arith, get_elem?-inside xs i b h)

-- No more separators than bytes.
pub Strips-count :
    {script : Bytes} {position count : ℕ} {body : Bytes}
    → Strips script position count body
    → position ≤ length script
    → count + position ≤ length script
Strips-count (at_end e) h = omega (arith, e)
Strips-count (at_cut opcode e lt) h = omega (arith, h)
Strips-count {script} (separator {position} e s) h =
    omega (arith, Strips-count s (omega (arith, get_elem?-inside script position 0xab e)))
Strips-count {script} (keep {position} opcode e n same le s) h =
    omega (arith, Strips-count s le, same, op_end-after script position opcode)

-- Every script has such a count and such bytes.
abbrev pub Stripped : Bytes → ℕ → Type 0
Stripped script position = (count : ℕ) × (body : Bytes) × Strips script position count body

pub Strips-from :
    (script : Bytes) (fuel position : ℕ)
    → position ≤ length script
    → length script < fuel + position
    → Stripped script position
Strips-from script zero position h f = absurd (omega arith)
Strips-from script (suc fuel) position h f = elim (Bool-cases (leb (length script) position)) [
  | inl t ↦ (0, [], at_end (ground (arith, t)))
  | inr inside ↦
      let (opcode, e) = get_elem?-some script position (ground (arith, inside)) in
      elim (Bool-cases (leb (op_end script position opcode) (length script))) [
        | inr cut ↦ (0, _, at_cut opcode e (ground (arith, cut)))
        | inl fits ↦ elim (Bool-cases (opcode == 0xab)) [
          | inl t ↦
              let here : get_elem? script position ≡ some 0xab =
                e ∙ ap (λ (x : ℕ). some x) (ground (arith, t)) in
              let (count, body, s) =
                Strips-from script fuel (position + 1) (ground (arith, inside)) (omega arith) in
              (suc count, body, separator here s)
          | inr f' ↦
              let le : op_end script position opcode ≤ length script = ground (arith, fits) in
              let (count, body, s) =
                Strips-from script fuel (op_end script position opcode) le
                  (omega (arith, op_end-after script position opcode)) in
              (
                count,
                piece script position (op_end script position opcode) ++ body,
                keep {count = count} {body = body} opcode e (λ t. absurd (ground (arith, t, f')))
                    refl le s,
              )
        ]
      ]
]
