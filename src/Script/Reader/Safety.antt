-- ===== src/Script/Reader/Safety.antt =====
-- Progress and panics of reader.rs.
use bitmigo.Prelude.{
  ℕ, zero, suc, ◌+◌, ◌-◌, ◌*◌, ltb, if◌then◌else◌, ap, ◌^◌, ◌≤◌, ◌<◌, ◌≡◌, refl, sym, ◌∙◌, [], ◌∷◌,
  Option, none, some, length, get_elem?, take, drop, arith, leb, ◌==◌, length-take, length-drop,
  leb→le,
}
use mathlib.Core.Path.{subst}
use bitmigo.Script.Error.{
  bad_opcode, ok, Returns, Returns→Safe, Returns-if, Returns-bind, Safe, check, ◌>>◌,
}
use bitmigo.Script.Num.{Bytes}
use bitmigo.Script.Num.Value.{IsByte, IsBytes}
use bitmigo.Script.Stack.Safety.{All-take, All-drop}
use bitmigo.Script.Reader.{
  OpRead, whole, truncated, slice, size_field_len, data_len, read_push, read_op, Reader, push_data,
  Next, finished, yield, failed, take_op, next_op, after_read,
}

-- The length of a slice that is there.
abbrev HasLength : ℕ → Option Bytes → Type 0
HasLength n none = Unit
HasLength n (some bytes) = length bytes ≡ n

slice-HasLength : (script : Bytes) (a k : ℕ) → HasLength k (slice script a (a + k))
slice-HasLength script a k =
    ground (arith, length-take (a + k - a) (drop a script), length-drop a script)

-- The number of little-endian bytes.
abbrev pub le_value : Bytes → ℕ
le_value [] = 0
le_value (byte ∷ bytes) = byte + 256 * le_value bytes

-- The opcode's byte, and behind OP_PUSHDATA1, 2 and 4 the bytes of the length.
abbrev pub header_size : ℕ → ℕ
header_size opcode =
    if opcode == 0x4c then 2 else if opcode == 0x4d then 3 else if opcode == 0x4e then 5 else 1

-- How many bytes the opcode at `position` pushes: up to 75 it is the opcode itself.
abbrev pub data_size : Bytes → ℕ → ℕ → ℕ
data_size script position opcode =
    if ltb opcode 0x4c
    then opcode
    else if ltb 0x4e opcode
    then 0
    else le_value (take (header_size opcode - 1) (drop (position + 1) script))

-- Where the opcode at `position` ends.
abbrev pub op_end : Bytes → ℕ → ℕ → ℕ
op_end script position opcode = position + header_size opcode + data_size script position opcode

-- Where the reading of an opcode stops that goes on behind the end of the script: behind its length
-- if all of that is there.
abbrev pub cut_end : Bytes → ℕ → ℕ → ℕ
cut_end script position opcode =
    if leb (position + header_size opcode) (length script)
    then position + header_size opcode
    else position + 1

-- The opcode at `position` goes on behind the end of the script.
abbrev pub IsCut : Bytes → ℕ → Type 0
IsCut script position =
    (opcode : ℕ) × (get_elem? script position ≡ some opcode)
    × (length script < op_end script position opcode)

-- The cursor has moved past what was read, and stays inside the script.
abbrev pub Reads : Bytes → ℕ → OpRead → Type 0
Reads script position (whole opcode next) =
    (position + 1 + size_field_len opcode ≤ next)
    × (next ≤ length script)
    × (get_elem? script position ≡ some opcode)
    × (next ≡ op_end script position opcode)
Reads script position (truncated next) =
    (position < next)
    × (next ≤ length script)
    × IsCut script position
    × ((opcode : ℕ) × (get_elem? script position ≡ some opcode)
        × (next ≡ cut_end script position opcode))

data_len-value :
    (opcode : ℕ) (field : Bytes)
    → opcode ≤ 0x4e
    → length field ≡ size_field_len opcode
    → data_len opcode field ≡ ok (if ltb opcode 0x4c then opcode else le_value field)
unfolding data_len size_field_len
data_len-value opcode [] h e = ground arith
data_len-value opcode (a ∷ []) h e = ground arith
data_len-value opcode (a ∷ b ∷ []) h e = ground arith
data_len-value opcode (a ∷ b ∷ c ∷ []) h e = ground arith
data_len-value opcode (a ∷ b ∷ c ∷ d ∷ []) h e = ground arith
data_len-value opcode (a ∷ b ∷ c ∷ d ∷ x ∷ xs) h e = ground arith

header_size-field : (opcode : ℕ) → header_size opcode ≡ 1 + size_field_len opcode
unfolding size_field_len
header_size-field opcode = ground arith

read_push-Reads :
    (script : Bytes) (opcode position : ℕ)
    → position < length script
    → opcode ≤ 0x4e
    → get_elem? script position ≡ some opcode
    → Returns (Reads script position) (read_push script opcode (position + 1))
unfolding read_push
read_push-Reads script opcode position h small at =
    let k : ℕ = size_field_len opcode in
    let field : Bytes = take (position + 1 + k - (position + 1)) (drop (position + 1) script) in
    let same_size : position + 1 + k - (position + 1) ≡ header_size opcode - 1 =
      omega (arith, header_size-field opcode) in
    let same_field : field ≡ take (header_size opcode - 1) (drop (position + 1) script) =
      ap (λ (n : ℕ). take n (drop (position + 1) script)) same_size in
    ground (
      arith,
      same_field,
      header_size-field opcode,
      length-take (position + 1 + k - (position + 1)) (drop (position + 1) script),
      length-drop (position + 1) script,
      data_len-value opcode field small,
    )

pub get_elem?-some :
    (script : Bytes) (i : ℕ) → i < length script → (b : ℕ) × (get_elem? script i ≡ some b)
get_elem?-some [] i h = absurd (omega arith)
get_elem?-some (b ∷ bs) zero h = (b, refl)
get_elem?-some (b ∷ bs) (suc i) h = get_elem?-some bs i (omega arith)

no_size_field : (opcode : ℕ) → 78 < opcode → size_field_len opcode ≡ 0
unfolding size_field_len
no_size_field opcode h = ground arith

-- Inside the script, `read_op` returns, and moves the cursor forward.
pub read_op-Reads :
    (script : Bytes) (position : ℕ)
    → position < length script
    → Returns (Reads script position) (read_op script position)
unfolding read_op
read_op-Reads script position h =
    let (b, e) = get_elem?-some script position h in
    ground (arith, e, no_size_field b, λ (k : b ≤ 0x4e). read_push-Reads script b position h k e)

pub read_op-Safe :
    (script : Bytes) (position : ℕ)
    → position < length script
    → Safe (Reads script position) (read_op script position)
read_op-Safe script position h =
    Returns→Safe (Reads script position) (read_op script position) (read_op-Reads script position h)

-- The data of a push that was read.
push_data-slice :
    (script : Bytes) (start next opcode : ℕ)
    → get_elem? script start ≡ some opcode
    → start + 1 + size_field_len opcode ≤ next
    → next ≤ length script
    → push_data script start next
      ≡ ok (
          take
            (next - (start + 1 + size_field_len opcode))
            (drop (start + 1 + size_field_len opcode) script))
unfolding push_data
push_data-slice script start next opcode e lo hi = ground arith

push_data-IsBytes :
    (script : Bytes) (start next opcode : ℕ)
    → get_elem? script start ≡ some opcode
    → start + 1 + size_field_len opcode ≤ next
    → next ≤ length script
    → IsBytes script
    → Returns
        (λ bytes. IsBytes bytes × (length bytes ≤ length script))
        (push_data script start next)
push_data-IsBytes script start next opcode e lo hi h =
    let first : ℕ = start + 1 + size_field_len opcode in
    subst (Returns (λ bytes. IsBytes bytes × (length bytes ≤ length script)))
      (sym (push_data-slice script start next opcode e lo hi))
      (
        All-take IsByte (next - first) (drop first script) (All-drop IsByte first script h),
        omega (arith, length-take (next - first) (drop first script), length-drop first script),
      )

-- A reader inside its script, that has counted no more opcodes than bytes.
pub record IsReader (r : Reader) : Type 0 where
  pub inside : r.position ≤ length r.script
  pub counted : r.ops_read ≤ r.position

-- What the opcode at `position` pushes, up to OP_PUSHDATA4: the bytes between its length and its
-- end.
abbrev pub pushed : Bytes → ℕ → ℕ → Bytes
pushed script position opcode =
    if leb opcode 0x4e
    then take (data_size script position opcode) (drop (position + header_size opcode) script)
    else []

-- One step of the reader: at the end it stays, and else it moves forward, counting an opcode that
-- is the byte it stood on, with the bytes that opcode pushes, and that ends where the reader then
-- stands, or failing where the opcode is cut off by the end of the script.
abbrev pub Advances : Reader → Next × Reader → Type 0
Advances r (finished, r') = (r.position ≡ length r.script) × (r' ≡ r)
Advances r (failed e, r') =
    (e ≡ bad_opcode)
    × (r'.script ≡ r.script)
    × (r.position < r'.position)
    × (r'.position ≤ length r.script)
    × IsCut r.script r.position
Advances r (yield op, r') =
    (r'.script ≡ r.script)
    × (r.position < r'.position)
    × (r'.position ≤ length r.script)
    × (r'.ops_read ≡ r.ops_read + 1)
    × (op.end ≡ r'.position)
    × IsBytes op.payload
    × (length op.payload ≤ length r.script)
    × (get_elem? r.script r.position ≡ some op.opcode)
    × (op.end ≡ op_end r.script r.position op.opcode)
    × (op.payload ≡ pushed r.script r.position op.opcode)

push_data-pushed :
    (script : Bytes) (position next opcode : ℕ)
    → Reads script position (whole opcode next)
    → opcode ≤ 0x4e
    → push_data script position next ≡ ok (pushed script position opcode)
push_data-pushed script position next opcode hr small =
    let at_data : position + 1 + size_field_len opcode ≡ position + header_size opcode =
      omega (arith, header_size-field opcode) in
    let size : next - (position + 1 + size_field_len opcode) ≡ data_size script position opcode =
      omega (arith, header_size-field opcode, hr.3) in
    push_data-slice script position next opcode hr.2 hr.0 hr.1 ∙ ground (arith, at_data, size)

take_op-Advances :
    (r : Reader) (opcode next : ℕ)
    → IsReader r
    → IsBytes r.script
    → length r.script < 2 ^ 32
    → Reads r.script r.position (whole opcode next)
    → Returns (Advances r) (take_op r opcode next)
unfolding take_op
take_op-Advances r opcode next h hb hl hr = ground (
  arith,
  push_data-IsBytes r.script r.position next opcode hr.2 hr.0 hr.1 hb,
  push_data-pushed r.script r.position next opcode hr,
)

module _ (r : Reader) (h : IsReader r) (hb : IsBytes r.script) (hl : length r.script < 2 ^ 32) where
  after_read-Advances :
      (step : OpRead) → Reads r.script r.position step → Returns (Advances r) (after_read r step)
  unfolding after_read
  after_read-Advances (whole opcode next) hr = take_op-Advances r opcode next h hb hl hr
  after_read-Advances (truncated next) hr = (refl, refl, hr.0, hr.1, hr.2)

  at_end-Advances :
      length r.script ≤ r.position
      → Returns (Advances r) (check (r.position == length r.script) >> ok (finished, r))
  at_end-Advances le = ground arith

  -- A reader inside a script of bytes, shorter than 2^32, returns. At the end of the script
  -- it says so. Before it, it moves forward inside the script, and where the opcode with its data
  -- ends inside the script it counts the opcode and yields it: the byte it stood on, with the bytes
  -- behind the length for a push, and none for another opcode. A bad opcode is reported only where
  -- the push goes on behind the end.
  pub next_op-Advances : Returns (Advances r) (next_op r)
  unfolding next_op
  next_op-Advances =
      Returns-if (Advances r) (leb (length r.script) r.position) _ _
        (λ e. at_end-Advances (leb→le _ _ e))
        λ e.
          Returns-bind (Reads r.script r.position) (Advances r) (read_op r.script r.position) _
            (read_op-Reads r.script r.position (ground arith)) after_read-Advances

  pub next_op-Safe : Safe (Advances r) (next_op r)
  next_op-Safe = Returns→Safe (Advances r) (next_op r) next_op-Advances
