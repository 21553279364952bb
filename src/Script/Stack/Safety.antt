-- ===== src/Script/Stack/Safety.antt =====
-- The stack methods of stack.rs on well-formed stacks: depths, sizes and panics.
use bitmigo.Prelude.{
  ℕ, zero, suc, ◌-◌, ◌≤◌, ◌<◌, ◌≡◌, refl, Bool, true, false, List, [], ◌∷◌, ◌++◌, length, get_elem?,
  set, take, drop, arith,
}
use bitmigo.Script.Error.{Safe, Safe-bind, ◌>>=◌}
use bitmigo.Script.Num.{Bytes, ScriptNum, encode}
use bitmigo.Script.Num.Value.{All, IsBytes}
use bitmigo.Script.Num.Bounds.{IsEncoded, encode-Safe}
use bitmigo.Script.Stack.{
  Stack, require, push, push_bool, pop, top, remove, index_at_depth, expect,
  max_script_element_size,
}

-- An element: bytes, 520 of them at most.
pub record IsItem (item : Bytes) : Type 0 where
  pub item_bytes : IsBytes item
  pub item_length : length item ≤ max_script_element_size

abbrev pub IsStack : Stack → Type 0
IsStack = All IsItem

pub IsEncoded-IsItem : (item : Bytes) → IsEncoded item → IsItem item
IsEncoded-IsItem item h = record { item_bytes = h.encoded_bytes; item_length = omega arith }

pub All-get_elem? :
    {A : Type 0} (P : A → Type 0) (xs : List A) (i : ℕ)
    → All P xs
    → i < length xs
    → Safe P (expect (get_elem? xs i))
All-get_elem? P [] i h lt = absurd (omega arith)
All-get_elem? P (x ∷ xs) zero h lt = h.0
All-get_elem? P (x ∷ xs) (suc i) h lt = All-get_elem? P xs i h.1 (omega arith)

All-set :
    {A : Type 0} (P : A → Type 0) (xs : List A) (i : ℕ) (v : A)
    → All P xs
    → P v
    → All P (set xs i v)
All-set P [] i v h hv = tt
All-set P (x ∷ xs) zero v h hv = (hv, h.1)
All-set P (x ∷ xs) (suc i) v h hv = (h.0, All-set P xs i v h.1 hv)

pub All-take : {A : Type 0} (P : A → Type 0) (n : ℕ) (xs : List A) → All P xs → All P (take n xs)
All-take P zero xs h = tt
All-take P (suc n) [] h = tt
All-take P (suc n) (x ∷ xs) h = (h.0, All-take P n xs h.1)

pub All-drop : {A : Type 0} (P : A → Type 0) (n : ℕ) (xs : List A) → All P xs → All P (drop n xs)
All-drop P zero xs h = h
All-drop P (suc n) [] h = tt
All-drop P (suc n) (x ∷ xs) h = All-drop P n xs h.1

pub All-append :
    {A : Type 0} (P : A → Type 0) (xs ys : List A) → All P xs → All P ys → All P (xs ++ ys)
All-append P [] ys h k = k
All-append P (x ∷ xs) ys h k = (h.0, All-append P xs ys h.1 k)

-- At any depth within the stack.
pub top-Safe : (n : ℕ) (s : Stack) → IsStack s → 1 ≤ n → n ≤ length s → Safe IsItem (top n s)
unfolding top index_at_depth
top-Safe n s h lo hi = ground (arith, All-get_elem? IsItem s (n - 1) h (omega arith))

abbrev pub IsSplit : Bytes × Stack → Type 0
IsSplit p = IsItem p.0 × IsStack p.1

pub remove-Safe : (n : ℕ) (s : Stack) → IsStack s → 1 ≤ n → n ≤ length s → Safe IsSplit (remove n s)
unfolding remove index_at_depth
remove-Safe n s h lo hi = ground (
  arith,
  All-get_elem? IsItem s (n - 1) h (omega arith),
  All-append IsItem (take (n - 1) s) (drop (suc (n - 1)) s) (All-take IsItem (n - 1) s h)
      (All-drop IsItem (suc (n - 1)) s h),
)

pub push-Safe : (item : Bytes) (s : Stack) → IsItem item → IsStack s → Safe IsStack (push item s)
unfolding push
push-Safe item s h k = ground arith

pub push_encoded-Safe :
    (item : Bytes) (s : Stack) → IsEncoded item → IsStack s → Safe IsStack (push item s)
push_encoded-Safe item s h k = push-Safe item s (IsEncoded-IsItem item h) k

pub require-Safe : (n : ℕ) (s : Stack) → Safe (λ _. n ≤ length s) (require n s)
unfolding require
require-Safe n s = ground arith

-- One element less.
abbrev pub IsPopped : Stack → Bytes × Stack → Type 0
IsPopped s p = IsItem p.0 × IsStack p.1 × (suc (length p.1) ≡ length s)

pub pop-Safe : (s : Stack) → IsStack s → 1 ≤ length s → Safe (IsPopped s) (pop s)
unfolding pop
pop-Safe [] h l = absurd (omega arith)
pop-Safe (a ∷ s) h l = (h.0, h.1, refl)

pub push_bool-Safe :
    (b : Bool) (s : Stack)
    → IsStack s
    → Safe (λ t. IsStack t × (length t ≡ suc (length s))) (push_bool b s)
unfolding push_bool
push_bool-Safe true s h = ground arith
push_bool-Safe false s h = ground arith

pub encode-push-Safe :
    (n : ScriptNum) (s : Stack) → IsStack s → Safe IsStack (encode n >>= λ item. push item s)
encode-push-Safe n s h =
    Safe-bind IsEncoded IsStack (encode n) _ (encode-Safe n) λ b hb. push_encoded-Safe b s hb h

-- One element more.
abbrev pub IsPushed : Stack → Stack → Type 0
IsPushed s t = IsStack t × (length t ≡ suc (length s))

pub push_length-Safe :
    (item : Bytes) (s : Stack) → IsItem item → IsStack s → Safe (IsPushed s) (push item s)
unfolding push
push_length-Safe item s h k = ground arith
