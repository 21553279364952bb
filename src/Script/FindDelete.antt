-- ===== src/Script/FindDelete.antt =====
-- `find_and_delete` of crates/consensus/src/script/interpreter.rs.
pub mod Copies
pub mod Deletes
pub mod Safety
use bitmigo.Prelude.{
  ℕ, zero, suc, ◌+◌, ◌-◌, ◌*◌, Bool, true, false, ◌&&◌, List, [], ◌∷◌, ◌++◌, Option, none, some,
  leb, ltb, ◌==◌, if◌then◌else◌, length,
}
use bitmigo.Script.Error.{Outcome, ok, err, panic, ◌>>=◌, ◌>>◌, check}
use bitmigo.Script.Num.{Bytes}
use bitmigo.Script.Stack.{expect}
use bitmigo.Script.StackOps.{bytes_eq}
use bitmigo.Script.Reader.{OpRead, whole, truncated, slice, read_op}

-- `script.get(pc..pc + pattern.len()) == Some(pattern)`
unfoldable pub matches_at : Bytes → Bytes → ℕ → Bool
unfolding bytes_eq
matches_at script pattern pc = elim (slice script pc (pc + length pattern)) [
  | none ↦ false
  | some found ↦ bytes_eq found pattern
]

-- The inner `while`: every consecutive copy of the pattern is passed. A non-empty pattern moves
-- `pc`, so one round more than the length of the script is fuel enough.
unfoldable pub skip_copies : ℕ → Bytes → Bytes → ℕ → ℕ → Outcome (ℕ × ℕ)
unfolding matches_at
skip_copies zero script pattern pc found = panic
skip_copies (suc fuel) script pattern pc found =
    let more = skip_copies fuel script pattern (pc + length pattern) (found + 1) in
    check (leb pc (length script))
    >> (if leb (length pattern) (length script - pc) && matches_at script pattern pc
        then more
        else ok (pc, found))

-- `result`, `found` and `pc2` as the walk ends.
pub record Walk : Type 0 where
  pub result : Bytes
  pub found : ℕ
  pub pc2 : ℕ

-- What one round does at the boundary `pc`: a truncated push ends the walk, an opcode goes on.
unfoldable pub walk_on : (ℕ → Outcome Walk) → Walk → OpRead → Outcome Walk
walk_on continue_at w (whole opcode next) = continue_at next
walk_on continue_at w (truncated next) = ok w

-- The round from `pc2 = pc` on.
unfoldable pub walk_round : (ℕ → Outcome Walk) → Bytes → Walk → Outcome Walk
walk_round continue_at script w =
    if leb (length script) w.pc2
    then ok w
    else do step ← read_op script w.pc2; walk_on continue_at w step

-- The outer `loop`. Its assertion `iterations <= script.len() + 1` is the fuel.
unfoldable pub walk : ℕ → Bytes → Bytes → Bytes → ℕ → ℕ → ℕ → Outcome Walk
walk zero script pattern result found pc pc2 = panic
walk (suc fuel) script pattern result found pc pc2 = do
  piece ← expect (slice script pc2 pc)
  (pc', found') ← skip_copies (suc (length script)) script pattern pc found
  walk_round (λ next. walk fuel script pattern (result ++ piece) found' next pc') script
      (record { result = result ++ piece; found = found'; pc2 = pc' })

-- What follows the loop: the rest of the script is copied through.
unfoldable pub finish_walk : Bytes → Bytes → Walk → Outcome (Bytes × ℕ)
finish_walk script pattern w = if w.found == 0 then ok (script, 0) else do
  rest ← expect (slice script w.pc2 (length script))
  check (length (w.result ++ rest) + w.found * length pattern == length script)
  ok (w.result ++ rest, w.found)

-- The new script and how many copies of the pattern were removed.
unfoldable pub find_and_delete : Bytes → Bytes → Outcome (Bytes × ℕ)
find_and_delete script pattern =
    if length pattern == 0
    then ok (script, 0)
    else do w ← walk (suc (length script)) script pattern [] 0 0 0; finish_walk script pattern w
