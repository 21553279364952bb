-- ===== src/Script/FindDelete/Copies.antt =====
-- What `find_and_delete` of interpreter.rs deletes, against a description by copies and opcodes.
use bitmigo.Prelude.{
  ℕ, suc, ◌+◌, ◌-◌, ◌*◌, ◌≤◌, ◌≡◌, refl, ap, ◌∙◌, Bool, true, [], ◌∷◌, ◌++◌, some, length,
  get_elem?, take, drop, arith, leb, ◌&&◌, length-take, length-drop, length-append,
}
use mathlib.Core.Path.{subst}
use bitmigo.Script.Num.{Bytes}
use bitmigo.Script.StackOps.{bytes_eq}
use bitmigo.Script.Reader.Safety.{IsCut, op_end}
use bitmigo.Script.FindDelete.{matches_at}
use bitmigo.Script.Reader.Pieces.{piece, piece-drop, drop_all, op_end-after}

-- A copy of the pattern stands at the position.
abbrev pub CopyAt : Bytes → Bytes → ℕ → Type 0
CopyAt script pattern position = take (length pattern) (drop position script) ≡ pattern

-- What is left of the script from an opcode's boundary on, and the number of copies deleted: a copy
-- of the pattern is deleted, and where there is none the opcode is kept, up to the end of the
-- script or to an opcode that the end cuts off.
pub data Deletes (script pattern : Bytes) : ℕ → Bytes → ℕ → Type 0 where
  at_end : {position : ℕ} → position ≡ length script → Deletes script pattern position [] 0
  at_cut :
      {position : ℕ}
      → ¬ CopyAt script pattern position
      → IsCut script position
      → Deletes script pattern position (drop position script) 0
  copy :
      {position : ℕ} {kept : Bytes} {count : ℕ}
      → CopyAt script pattern position
      → Deletes script pattern (position + length pattern) kept count
      → Deletes script pattern position kept (suc count)
  keep :
      {position next : ℕ} {kept : Bytes} {count : ℕ} (opcode : ℕ)
      → ¬ CopyAt script pattern position
      → get_elem? script position ≡ some opcode
      → next ≡ op_end script position opcode
      → next ≤ length script
      → Deletes script pattern next kept count
      → Deletes script pattern position (piece script position next ++ kept) count

bytes_eq_sound : (xs ys : Bytes) → bytes_eq xs ys ≡ true → xs ≡ ys
unfolding bytes_eq
bytes_eq_sound [] [] h = refl
bytes_eq_sound [] (y ∷ ys) h = absurd (ground (arith, h))
bytes_eq_sound (x ∷ xs) [] h = absurd (ground (arith, h))
bytes_eq_sound (x ∷ xs) (y ∷ ys) h = ground (arith, h, bytes_eq_sound xs ys)

bytes_eq_refl : (xs : Bytes) → bytes_eq xs xs ≡ true
unfolding bytes_eq
bytes_eq_refl [] = refl
bytes_eq_refl (x ∷ xs) = ground (arith, bytes_eq_refl xs)

bytes_eq_complete : (xs ys : Bytes) → xs ≡ ys → bytes_eq xs ys ≡ true
bytes_eq_complete xs ys h = subst (λ (zs : Bytes). bytes_eq xs zs ≡ true) h (bytes_eq_refl xs)

module _ (script pattern : Bytes) where
  pub no_deletion :
      {position : ℕ} {kept : Bytes} {count : ℕ}
      → Deletes script pattern position kept count
      → count ≡ 0
      → kept ≡ drop position script
  no_deletion (at_end h) e = drop_all script _ h
  no_deletion (at_cut n c) e = refl
  no_deletion (copy c d) e = absurd (omega (arith, e))
  no_deletion (keep {position} {next} {kept} {count} opcode n o same h d) e =
      ap (λ (t : Bytes). piece script position next ++ t) (no_deletion d e)
      ∙ piece-drop script position next (omega (arith, same, op_end-after script position opcode))

  pub copy_fits :
      (position : ℕ)
      → position ≤ length script
      → CopyAt script pattern position
      → position + length pattern ≤ length script
  copy_fits position h c = omega (
    arith,
    ap (λ (t : Bytes). length t) c,
    length-take (length pattern) (drop position script),
    length-drop position script,
  )

  pub deletion_length :
      {position : ℕ} {kept : Bytes} {count : ℕ}
      → Deletes script pattern position kept count
      → position ≤ length script
      → length kept + count * length pattern + position ≡ length script
  deletion_length (at_end e) h = omega (arith, e)
  deletion_length (at_cut {position} n c) h = omega (arith, length-drop position script)
  deletion_length (copy {position} {kept} {count} c d) h =
      ground (arith, deletion_length d (copy_fits position h c))
  deletion_length (keep {position} {next} {kept} {count} opcode n o same le d) h = omega (
    arith,
    same,
    op_end-after script position opcode,
    deletion_length d le,
    length-append (piece script position next) kept,
    length-take (next - position) (drop position script),
    length-drop position script,
  )

  abbrev pub is_copy : ℕ → Bool
  is_copy position =
      leb (length pattern) (length script - position) && matches_at script pattern position

  pub matches_at-CopyAt :
      (position : ℕ)
      → position ≤ length script
      → is_copy position ≡ true
      → CopyAt script pattern position
  unfolding matches_at
  matches_at-CopyAt position h e =
      let size : position + length pattern - position ≡ length pattern = omega arith in
      ground (arith, size, e, bytes_eq_sound (take (length pattern) (drop position script)) pattern)

  pub CopyAt-matches_at :
      (position : ℕ)
      → position ≤ length script
      → CopyAt script pattern position
      → is_copy position ≡ true
  unfolding matches_at
  CopyAt-matches_at position h c =
      let size : position + length pattern - position ≡ length pattern = omega arith in
      ground (
        arith,
        size,
        copy_fits position h c,
        bytes_eq_complete (take (length pattern) (drop position script)) pattern c,
      )

-- What is deleted from a script, and how many copies: nothing for an empty pattern.
abbrev pub IsDeletion : Bytes → Bytes → Bytes × ℕ → Type 0
IsDeletion script [] (kept, count) = (kept ≡ script) × (count ≡ 0)
IsDeletion script (byte ∷ bytes) (kept, count) = Deletes script (byte ∷ bytes) 0 kept count
