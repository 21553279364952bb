-- ===== src/Script/Programs/Witness.antt =====
-- `witness_program` of verify.rs against the shape of a witness program.
use bitmigo.Prelude.{
  ℕ, ◌+◌, ◌≤◌, ◌≡◌, refl, ap, ◌∙◌, Option, none, some, [], ◌∷◌, length, arith, ltb, ◌||◌, ◌==◌, not,
  if◌then◌else◌,
}
use mathlib.Core.Path.{subst}
use bitmigo.Script.Error.{ok, Safe, Returns, Returns→Safe, Returns-if, Returns-bind, check}
use bitmigo.Script.Num.{Bytes}
use bitmigo.Script.Num.Value.{IsBytes}
use bitmigo.Script.Programs.{version_of, program_of, witness_program}

-- OP_0, or one of OP_1 to OP_16.
abbrev pub version_opcode : ℕ → ℕ
version_opcode version = if version == 0 then 0x00 else 0x50 + version

-- A version of 16 at most as its opcode, and one direct push of 2 to 40 bytes, and nothing else.
abbrev pub IsWitness : Bytes → ℕ → Bytes → Type 0
IsWitness script version program =
    (version ≤ 16)
    × (2 ≤ length program)
    × (length program ≤ 40)
    × (script ≡ version_opcode version ∷ length program ∷ program)

-- What is found is the script's version and program, and where nothing is found there are none.
abbrev pub IsProgram : Bytes → Option (ℕ × Bytes) → Type 0
IsProgram script none = (version : ℕ) (program : Bytes) → ¬ IsWitness script version program
IsProgram script (some (version, program)) = IsWitness script version program

IsWitness-version :
    (a b : ℕ) (rest : Bytes) (version : ℕ) (program : Bytes)
    → IsWitness (a ∷ b ∷ rest) version program
    → (a ≡ version_opcode version) × (b ≡ length program) × (rest ≡ program)
IsWitness-version a b rest version program h = ground (arith, h.3)

version_of-some :
    (byte version : ℕ)
    → version_of byte ≡ some version
    → (version ≤ 16) × (byte ≡ version_opcode version)
unfolding version_of
version_of-some byte version h = ground (arith, h)

version_of-none :
    (byte version : ℕ) → version_of byte ≡ none → version ≤ 16 → ¬ (byte ≡ version_opcode version)
unfolding version_of
version_of-none byte version h le e = ground (arith, h, e)

program_of-IsProgram :
    (o : Option ℕ) (a b : ℕ) (rest : Bytes)
    → version_of a ≡ o
    → 2 ≤ length rest
    → length rest ≤ 40
    → Returns (IsProgram (a ∷ b ∷ rest)) (program_of o b rest)
program_of-IsProgram none a b rest e lo hi = λ version program h.
    let (first, _, _) = IsWitness-version a b rest version program h in
    version_of-none a version e h.0 first
program_of-IsProgram (some n) a b rest e lo hi =
    Returns-if (IsProgram (a ∷ b ∷ rest)) (not (b == length rest)) (ok none) _
      (λ other version program h.
        let (_, second, same) = IsWitness-version a b rest version program h in
        ground (arith, other, second, ap (λ (t : Bytes). length t) same))
      λ t.
        let length_byte : b ≡ length rest = ground (arith, t) in
        let (le, first) = version_of-some a n e in
        let found : IsProgram (a ∷ b ∷ rest) (some (n, rest)) = (
          le,
          lo,
          hi,
          ap (λ (x : ℕ). x ∷ b ∷ rest) first
              ∙ ap (λ (x : ℕ). version_opcode n ∷ x ∷ rest) length_byte,
        ) in
        Returns-bind (λ _. Unit) (IsProgram (a ∷ b ∷ rest)) (check (length rest == b)) _
          (ground (arith, t)) λ _ _. found

-- `witness_program` always returns: a version and a program where the script is exactly the opcode
-- of that version, OP_0 or OP_1 to OP_16, and one direct push of that program, of 2 to 40 bytes;
-- and nothing where the script is so for no version and no program.
pub witness_program-IsProgram :
    (script : Bytes) → Returns (IsProgram script) (witness_program script)
unfolding witness_program
witness_program-IsProgram [] =
    λ version program h. absurd (omega (arith, ap (λ (t : Bytes). length t) h.3))
witness_program-IsProgram (a ∷ []) =
    λ version program h. absurd (omega (arith, ap (λ (t : Bytes). length t) h.3))
witness_program-IsProgram (a ∷ b ∷ rest) =
    Returns-if (IsProgram (a ∷ b ∷ rest)) (ltb (length rest + 2) 4 || ltb 42 (length rest + 2))
      (ok none) _
      (λ e version program h.
        absurd (ground (arith, e, h.1, h.2, ap (λ (t : Bytes). length t) h.3)))
      λ e. program_of-IsProgram (version_of a) a b rest refl (ground (arith, e)) (ground (arith, e))

pub witness_program-Safe : (script : Bytes) → Safe (IsProgram script) (witness_program script)
witness_program-Safe script =
    Returns→Safe (IsProgram script) (witness_program script) (witness_program-IsProgram script)

pub IsProgram-empty : IsProgram [] none
IsProgram-empty version program h = absurd (omega (arith, ap (λ (t : Bytes). length t) h.3))

-- The program of a script of bytes.
pub program_bytes :
    (script : Bytes) (version : ℕ) (program : Bytes)
    → IsBytes script
    → IsWitness script version program
    → IsBytes program × (2 ≤ length program) × (length program ≤ 40)
program_bytes script version program h p = ((subst IsBytes p.3 h).1.1, p.1, p.2)
