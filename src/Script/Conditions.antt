-- ===== src/Script/Conditions.antt =====
-- The ConditionStack of crates/consensus/src/script/interpreter.rs: the nest of `OP_IF`s, as its
-- depth and the depth of the outermost false.
pub mod Refine
use bitmigo.Prelude.{
  ℕ, ◌+◌, ◌-◌, Bool, true, false, not, ◌&&◌, Option, none, some, leb, ltb, ◌==◌, if◌then◌else◌,
}
use bitmigo.Script.Error.{Outcome, ok, ◌>>◌, check}

pub record ConditionStack : Type 0 where
  pub depth : ℕ
  pub first_false : Option ℕ

unfoldable pub conditions_new : ConditionStack
conditions_new = record { depth = 0; first_false = none }

unfoldable pub conditions_empty : ConditionStack → Bool
conditions_empty c = c.depth == 0

abbrev pub is_none : Option ℕ → Bool
is_none none = true
is_none (some n) = false

-- Every enclosing branch is taken.
unfoldable pub all_true : ConditionStack → Bool
all_true c = is_none c.first_false

unfoldable pub conditions_push : Bool → ConditionStack → Outcome ConditionStack
conditions_push value c = do
  let first = if is_none c.first_false && not value then some c.depth else c.first_false
  check (leb (c.depth + 1) 10001)
  ok (record { depth = c.depth + 1; first_false = first })

-- `first_false` after a pop to this depth.
abbrev pub clear_at : ℕ → Option ℕ → Option ℕ
clear_at depth none = none
clear_at depth (some first) = if first == depth then none else some first

unfoldable pub conditions_pop : ConditionStack → Outcome ConditionStack
conditions_pop c = do
  check (ltb 0 c.depth)
  ok (record { depth = c.depth - 1; first_false = clear_at (c.depth - 1) c.first_false })

-- `first_false` after the branch at this depth is flipped.
abbrev pub flip_at : ℕ → Option ℕ → Option ℕ
flip_at top none = some top
flip_at top (some first) = if first == top then none else some first

unfoldable pub toggle_top : ConditionStack → Outcome ConditionStack
toggle_top c = do
  check (ltb 0 c.depth)
  ok (record c { first_false = flip_at (c.depth - 1) c.first_false })
