-- ===== src/Script/Taproot.antt =====
-- crates/consensus/src/script/taproot.rs: the control block, the commitment and the sigop budget.
pub mod Commitment
pub mod Control
pub mod Order
use bitmigo.Prelude.{
  ℕ, zero, suc, ◌+◌, ◌-◌, ◌*◌, ◌/◌, ◌%◌, ◌^◌, Bool, true, false, not, ◌&&◌, ◌||◌, List, [], ◌∷◌,
  ◌++◌, ltb, leb, ◌==◌, if◌then◌else◌, length, take, drop,
}
use bitmigo.Prelude.Int.{ℤ, pos}
use bitmigo.Script.Error.{
  Outcome, ok, panic, ◌>>=◌, ◌>>◌, check, fail_if, taproot_wrong_control_size,
}
use bitmigo.Script.Num.{Bytes, in_i64}

abbrev pub taproot_control_base_size : ℕ
taproot_control_base_size = 33

abbrev pub taproot_control_node_size : ℕ
taproot_control_node_size = 32

abbrev pub taproot_control_max_node_count : ℕ
taproot_control_max_node_count = 128

abbrev pub taproot_control_max_size : ℕ
taproot_control_max_size =
    taproot_control_base_size + taproot_control_node_size * taproot_control_max_node_count

abbrev pub validation_weight_offset : ℕ
validation_weight_offset = 50

-- What is asked of third-party code: the tagged hashes and the `VarInt` of the `bitcoin` crate, and
-- of `secp256k1` whether 32 bytes are a key, whether they are a scalar, and whether a key with a
-- tweak added is another key of the parity given.
pub record Primitives : Type 0 where
  pub tap_leaf : Bytes → Bytes
  pub tap_node : Bytes → Bytes
  pub tap_tweak_hash : Bytes → Bytes
  pub var_int : ℕ → Bytes
  pub is_key : Bytes → Bool
  pub is_scalar : Bytes → Bool
  pub tweak_add_check : Bytes → Bytes → Bool → Bytes → Bool

pub record ControlBlock : Type 0 where
  pub leaf_version : ℕ
  pub output_parity_odd : Bool
  pub internal_key : Bytes
  pub path : Bytes

-- `split_first` and `split_first_chunk`, with `expect`. `first & 0xfe` is the byte without its
-- lowest bit.
unfoldable pub split_control : Bytes → Outcome ControlBlock
split_control [] = panic
split_control (first ∷ rest) = do
  check (leb 32 (length rest))
  check (length (drop 32 rest) % taproot_control_node_size == 0)
  ok (record {
    leaf_version = first - first % 2;
    output_parity_odd = first % 2 == 1;
    internal_key = take 32 rest;
    path = drop 32 rest;
  })

-- `ControlBlock::parse`
unfoldable pub parse_control : Bytes → Outcome ControlBlock
parse_control bytes = do
  fail_if (ltb (length bytes) taproot_control_base_size) taproot_wrong_control_size
  fail_if (ltb taproot_control_max_size (length bytes)) taproot_wrong_control_size
  fail_if (not ((length bytes - taproot_control_base_size) % taproot_control_node_size == 0))
      taproot_wrong_control_size
  split_control bytes

unfoldable pub path_len : ControlBlock → Outcome ℕ
path_len control = do
  check (length control.path % taproot_control_node_size == 0)
  ok (length control.path / taproot_control_node_size)

unfoldable pub tapleaf_hash : Primitives → ℕ → Bytes → Outcome Bytes
tapleaf_hash p leaf_version script = do
  check (leaf_version % 2 == 0)
  ok (p.tap_leaf ((leaf_version ∷ p.var_int (length script)) ++ script))

-- The order of byte arrays.
unfoldable pub lex_lt : Bytes → Bytes → Bool
lex_lt [] [] = false
lex_lt [] (y ∷ ys) = true
lex_lt (x ∷ xs) [] = false
lex_lt (x ∷ xs) (y ∷ ys) = let later = lex_lt xs ys in ltb x y || x == y && later

-- One step up: the pair is hashed in order.
unfoldable pub parent : Primitives → Bytes → Bytes → Bytes
parent p node sibling =
    if lex_lt node sibling then p.tap_node (node ++ sibling) else p.tap_node (sibling ++ node)

-- The loop over the siblings, the chunks of 32 bytes of the path, with their number.
unfoldable pub climb : Primitives → ℕ → Bytes → Bytes → Bytes
climb p zero node path = node
climb p (suc n) node path = climb p n (parent p node (take 32 path)) (drop 32 path)

unfoldable pub taproot_merkle_root : Primitives → ControlBlock → Bytes → Outcome Bytes
taproot_merkle_root p control leaf_hash = do
  nodes ← path_len control
  check (leb nodes taproot_control_max_node_count)
  check (length control.path % taproot_control_node_size == 0)
  ok (climb p nodes leaf_hash control.path)

unfoldable pub tap_tweak : Primitives → Bytes → Bytes → Bytes
tap_tweak p internal_key merkle_root = p.tap_tweak_hash (internal_key ++ merkle_root)

unfoldable pub verify_taproot_commitment : Primitives → ControlBlock → Bytes → Bytes → Outcome Bool
verify_taproot_commitment p control output_key leaf_hash =
    if not (p.is_key control.internal_key)
    then ok false
    else if not (p.is_key output_key)
    then ok false
    else do
      merkle_root ← taproot_merkle_root p control leaf_hash
      let tweak = tap_tweak p control.internal_key merkle_root
      if not (p.is_scalar tweak)
          then ok false
          else ok
              (p.tweak_add_check control.internal_key output_key control.output_parity_odd tweak)

-- The sizes of the items, each behind its count.
unfoldable pub items_size : Primitives → List Bytes → ℕ
items_size p [] = 0
items_size p (item ∷ items) = length (p.var_int (length item)) + length item + items_size p items

unfoldable pub witness_serialized_size : Primitives → List Bytes → Outcome ℕ
witness_serialized_size p witness = do
  let size = length (p.var_int (length witness)) + items_size p witness
  check (leb 1 size)
  ok size

unfoldable pub validation_weight : Primitives → List Bytes → Outcome ℤ
validation_weight p witness = do
  size ← witness_serialized_size p witness
  check (ltb size (2 ^ 63))
  check (leb 1 size)
  check (in_i64 (pos (validation_weight_offset + size)))
  ok (pos (validation_weight_offset + size))
