-- ===== src/Script/Conditions/Refine.antt =====
-- ConditionStack of interpreter.rs against the vector of Booleans that it stands for.
use bitmigo.Prelude.{
  ℕ, ◌≤◌, ◌<◌, ◌≡◌, refl, Bool, true, not, ◌&&◌, Option, none, some, List, [], ◌∷◌, length, arith,
  ◌==◌, if◌then◌else◌,
}
use bitmigo.Script.Error.{ok}
use bitmigo.Script.Conditions.{
  ConditionStack, conditions_new, conditions_empty, all_true, conditions_push, conditions_pop,
  toggle_top,
}

-- The depth of the outermost false, in a nest with the innermost branch first.
unfoldable pub outermost_false : List Bool → Option ℕ
outermost_false [] = none
outermost_false (value ∷ outer) = elim (outermost_false outer) [
  | some first ↦ some first
  | none ↦ if value then none else some (length outer)
]

-- The condition stack of a nest.
abbrev pub of_nest : List Bool → ConditionStack
of_nest nest = record { depth = length nest; first_false = outermost_false nest }

unfoldable pub all_of : List Bool → Bool
all_of [] = true
all_of (value ∷ outer) = value && all_of outer

abbrev Below : ℕ → Option ℕ → Type 0
Below n none = Unit
Below n (some i) = i < n

outermost_false-Below : (nest : List Bool) → Below (length nest) (outermost_false nest)
unfolding outermost_false
outermost_false-Below [] = tt
outermost_false-Below (value ∷ outer) = ground (arith, outermost_false-Below outer)

all_true-of_nest : (nest : List Bool) → all_true (of_nest nest) ≡ all_of nest
unfolding all_true all_of outermost_false
all_true-of_nest [] = refl
all_true-of_nest (value ∷ outer) = ground (arith, all_true-of_nest outer)

push-of_nest :
    (value : Bool) (nest : List Bool)
    → length nest ≤ 10000
    → conditions_push value (of_nest nest) ≡ ok (of_nest (value ∷ nest))
unfolding conditions_push outermost_false
push-of_nest value nest h = ground arith

pop-of_nest :
    (value : Bool) (nest : List Bool) → conditions_pop (of_nest (value ∷ nest)) ≡ ok (of_nest nest)
unfolding conditions_pop outermost_false
pop-of_nest value nest = ground (arith, outermost_false-Below nest)

toggle-of_nest :
    (value : Bool) (nest : List Bool)
    → toggle_top (of_nest (value ∷ nest)) ≡ ok (of_nest (not value ∷ nest))
unfolding toggle_top outermost_false
toggle-of_nest value nest = ground (arith, outermost_false-Below nest)

empty-of_nest : (nest : List Bool) → conditions_empty (of_nest nest) ≡ (length nest == 0)
unfolding conditions_empty
empty-of_nest nest = refl

new-of_nest : conditions_new ≡ of_nest []
unfolding conditions_new outermost_false
new-of_nest = refl

-- Depth and outermost false stand for the whole nest of branch values, of a nest of 10,000 at most:
-- a fresh stack is the empty nest, entering a branch adds a value, `OP_ENDIF` removes and `OP_ELSE`
-- flips the innermost value without a panic, and the two questions answer whether every branch is
-- taken and whether the nest is empty.
pub conditions_refine :
    (value : Bool) (nest : List Bool)
    → length nest ≤ 10000
    → (conditions_new ≡ of_nest [])
      × (conditions_push value (of_nest nest) ≡ ok (of_nest (value ∷ nest)))
      × (conditions_pop (of_nest (value ∷ nest)) ≡ ok (of_nest nest))
      × (toggle_top (of_nest (value ∷ nest)) ≡ ok (of_nest (not value ∷ nest)))
      × (all_true (of_nest nest) ≡ all_of nest)
      × (conditions_empty (of_nest nest) ≡ (length nest == 0))
conditions_refine value nest h = (
  new-of_nest,
  push-of_nest value nest h,
  pop-of_nest value nest,
  toggle-of_nest value nest,
  all_true-of_nest nest,
  empty-of_nest nest,
)
