-- ===== src/Script/Reader.antt =====
-- crates/consensus/src/script/reader.rs: reading a script one opcode at a time.
pub mod Pieces
pub mod Safety
pub mod RoundTrip
use bitmigo.Prelude.{
  ℕ, ◌+◌, ◌-◌, ◌*◌, ◌/◌, ◌%◌, ◌^◌, ◌&&◌, [], ◌∷◌, ◌++◌, Option, none, some, leb, ltb, ◌==◌,
  if◌then◌else◌, length, get_elem?, take, drop,
}
use bitmigo.Script.Error.{ScriptError, Outcome, ok, panic, ◌>>=◌, ◌>>◌, check, bad_opcode}
use bitmigo.Script.Num.{Bytes}
use bitmigo.Script.Stack.{expect}
use bitmigo.Script.Opcode.{op_pushdata1, op_pushdata2, op_pushdata4, is_push}

-- Where the cursor was left: after a whole opcode, or inside a truncated push.
pub data OpRead : Type 0 where
  whole : ℕ → ℕ → OpRead
  truncated : ℕ → OpRead

-- `script.get(first..last)`
abbrev pub slice : Bytes → ℕ → ℕ → Option Bytes
slice script first last =
    if leb first last && leb last (length script)
    then some (take (last - first) (drop first script))
    else none

unfoldable pub size_field_len : ℕ → ℕ
size_field_len opcode =
    if opcode == op_pushdata1
    then 1
    else if opcode == op_pushdata2
    then 2
    else if opcode == op_pushdata4
    then 4
    else 0

-- `usize::from(opcode)` or the little-endian size field.
unfoldable pub data_len : ℕ → Bytes → Outcome ℕ
data_len opcode [] = ok opcode
data_len opcode (byte ∷ []) = ok byte
data_len opcode (low ∷ high ∷ []) = ok (low + high * 2 ^ 8)
data_len opcode (a ∷ b ∷ c ∷ d ∷ []) = ok (a + b * 2 ^ 8 + c * 2 ^ 16 + d * 2 ^ 24)
data_len opcode other = panic

-- `read_op` from the size field on.
unfoldable pub read_push : Bytes → ℕ → ℕ → Outcome OpRead
read_push script opcode next = elim (slice script next (next + size_field_len opcode)) [
  | none ↦ ok (truncated next)
  | some size_field ↦ do
    len ← data_len opcode size_field
    let next' = next + size_field_len opcode
    check (leb next' (length script))
    if ltb (length script - next') len
        then ok (truncated next')
        else do check (leb (next' + len) (length script)); ok (whole opcode (next' + len))
]

unfoldable pub read_op : Bytes → ℕ → Outcome OpRead
unfolding read_push
read_op script position = do
  check (ltb position (length script))
  opcode ← expect (get_elem? script position)
  if ltb op_pushdata4 opcode
      then ok (whole opcode (position + 1))
      else read_push script opcode (position + 1)

-- One opcode as the interpreter sees it.
pub record Op : Type 0 where
  pub opcode : ℕ
  pub payload : Bytes
  pub end : ℕ

pub record Reader : Type 0 where
  pub script : Bytes
  pub position : ℕ
  pub ops_read : ℕ

unfoldable pub reader_new : Bytes → Reader
reader_new script = record { script = script; position = 0; ops_read = 0 }

-- The data bytes of the push in `start..next`.
unfoldable pub push_data : Bytes → ℕ → ℕ → Outcome Bytes
push_data script start next = do
  opcode ← expect (get_elem? script start)
  let data_start = start + 1 + size_field_len opcode
  check (leb data_start next)
  expect (slice script data_start next)

-- What one call of `next_op` yields: `None`, `Some(Ok(op))` or `Some(Err(e))`.
pub data Next : Type 0 where
  finished : Next
  yield : Op → Next
  failed : ScriptError → Next

-- The branch of a whole opcode.
unfoldable pub take_op : Reader → ℕ → ℕ → Outcome (Next × Reader)
unfolding push_data is_push
take_op r opcode next = do
  check (ltb r.position next)
  check (leb next (length r.script))
  check (ltb (r.ops_read + 1) (2 ^ 32))
  payload ← (if is_push opcode then push_data r.script r.position next else ok [])
  ok (
    yield (record { opcode = opcode; payload = payload; end = next }),
    record r { position = next; ops_read = r.ops_read + 1 },
  )

-- The `match` of `next_op` on what was read.
unfoldable pub after_read : Reader → OpRead → Outcome (Next × Reader)
after_read r (whole opcode next) = take_op r opcode next
after_read r (truncated next) = ok (failed bad_opcode, record r { position = next })

unfoldable pub next_op : Reader → Outcome (Next × Reader)
next_op r =
    if leb (length r.script) r.position
    then (do check (r.position == length r.script); ok (finished, r))
    else do step ← read_op r.script r.position; after_read r step

unfoldable pub opcode_index : Reader → Outcome ℕ
opcode_index r = do check (ltb 0 r.ops_read); ok (r.ops_read - 1)

-- The little-endian bytes of a number, as `to_le_bytes` of `n` bytes.
abbrev pub le_bytes2 : ℕ → Bytes
le_bytes2 n = (n % 256) ∷ (n / 2 ^ 8 % 256) ∷ []

abbrev pub le_bytes4 : ℕ → Bytes
le_bytes4 n = (n % 256) ∷ (n / 2 ^ 8 % 256) ∷ (n / 2 ^ 16 % 256) ∷ (n / 2 ^ 24 % 256) ∷ []

-- The opcode and size field before the data.
unfoldable pub push_header : ℕ → Outcome Bytes
push_header len =
    if ltb len op_pushdata1
    then ok (len ∷ [])
    else if ltb len (2 ^ 8)
    then ok (op_pushdata1 ∷ len ∷ [])
    else if ltb len (2 ^ 16)
    then ok (op_pushdata2 ∷ le_bytes2 len)
    else do check (ltb len (2 ^ 32)); ok (op_pushdata4 ∷ le_bytes4 len)

-- The shortest push opcode for the data, then the bytes.
unfoldable pub push_encoding : Bytes → Outcome Bytes
unfolding push_header
push_encoding payload = do
  header ← push_header (length payload)
  check (ltb (length payload) (length (header ++ payload)))
  ok (header ++ payload)
