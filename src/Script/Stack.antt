-- ===== src/Script/Stack.antt =====
-- crates/consensus/src/script/stack.rs: the data stack. The source's vector, bottom to top, is a
-- list with the top first: the index `len - depth` of the vector is `depth - 1` of the list.
pub mod Safety
use bitmigo.Prelude.{
  ℕ, suc, ◌-◌, Bool, true, false, List, [], ◌∷◌, ◌++◌, reverse, Option, none, some, leb, ltb,
  if◌then◌else◌, length, get_elem?, set, take, drop,
}
use bitmigo.Script.Error.{Outcome, ok, panic, ◌>>=◌, ◌>>◌, check, fail_if, invalid_stack_operation}
use bitmigo.Script.Num.{Bytes}

abbrev pub max_script_element_size : ℕ
max_script_element_size = 520

abbrev pub Stack : Type 0
Stack = List Bytes

abbrev pub stack_new : Stack
stack_new = []

-- `assert!(item.len() <= MAX_SCRIPT_ELEMENT_SIZE)`
abbrev pub check_size : Bytes → Outcome (Unit {0})
check_size item = check (leb (length item) max_script_element_size)

unfoldable pub check_items : List Bytes → Outcome (Unit {0})
check_items [] = ok tt
check_items (item ∷ items) = do check_size item; check_items items

-- The items come bottom to top.
unfoldable pub from_items : List Bytes → Outcome Stack
unfolding check_items
from_items items = do check_items items; ok (reverse items)

abbrev pub is_empty : Stack → Bool
is_empty [] = true
is_empty (item ∷ stack) = false

unfoldable pub require : ℕ → Stack → Outcome (Unit {0})
require count stack = fail_if (ltb (length stack) count) invalid_stack_operation

unfoldable pub push : Bytes → Stack → Outcome Stack
push item stack = do check_size item; ok (item ∷ stack)

unfoldable pub push_bool : Bool → Stack → Outcome Stack
unfolding push
push_bool value stack = push (if value then 1 ∷ [] else []) stack

unfoldable pub pop : Stack → Outcome (Bytes × Stack)
pop [] = panic
pop (item ∷ stack) = ok (item, stack)

-- `expect`
abbrev pub expect {ℓ} : {A : Type ℓ} → Option A → Outcome A
expect none = panic
expect (some a) = ok a

-- The list index of a depth.
unfoldable pub index_at_depth : ℕ → Stack → Outcome ℕ
index_at_depth depth stack = do
  check (leb 1 depth)
  check (leb depth (length stack))
  ok (depth - 1)

unfoldable pub top : ℕ → Stack → Outcome Bytes
unfolding index_at_depth
top depth stack = do index ← index_at_depth depth stack; expect (get_elem? stack index)

unfoldable pub swap : ℕ → ℕ → Stack → Outcome Stack
unfolding index_at_depth
swap a b stack = do
  index_a ← index_at_depth a stack
  index_b ← index_at_depth b stack
  item_a ← expect (get_elem? stack index_a)
  item_b ← expect (get_elem? stack index_b)
  ok (set (set stack index_a item_b) index_b item_a)

unfoldable pub remove : ℕ → Stack → Outcome (Bytes × Stack)
unfolding index_at_depth
remove depth stack = do
  index ← index_at_depth depth stack
  item ← expect (get_elem? stack index)
  ok (item, take index stack ++ drop (suc index) stack)

-- Afterwards the item is at depth `depth + 1`.
unfoldable pub insert : ℕ → Bytes → Stack → Outcome Stack
unfolding index_at_depth
insert depth item stack = do
  check_size item
  index ← index_at_depth depth stack
  ok (take (suc index) stack ++ (item ∷ drop (suc index) stack))
