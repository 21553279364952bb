-- ===== src/Script/Reader/RoundTrip.antt =====
-- `push_encoding` and `next_op` of reader.rs: what one writes the other reads back.
use bitmigo.Prelude.{
  ℕ, ◌+◌, ◌-◌, ◌*◌, ◌/◌, ◌%◌, ◌^◌, ◌≤◌, ◌<◌, ◌≡◌, refl, ap, ◌∙◌, true, [], ◌∷◌, ◌++◌, some, length,
  take, drop, arith, ltb, length-append, take-append, drop-append, append_assoc, Bool-cases, inl,
  inr,
}
use bitmigo.Script.Error.{ok}
use bitmigo.Script.Num.{Bytes}
use bitmigo.Script.Opcode.{is_push}
use bitmigo.Script.Reader.{
  whole, slice, size_field_len, data_len, read_push, read_op, reader_new, push_data, yield, take_op,
  after_read, next_op, push_header, push_encoding, le_bytes2, le_bytes4,
}

-- A slice in the middle.
slice-append :
    (xs ys zs : Bytes) (a b : ℕ)
    → a ≡ length xs
    → b ≡ length xs + length ys
    → slice (xs ++ (ys ++ zs)) a b ≡ some ys
slice-append xs ys zs a b ea eb =
    ground (arith, length-append xs (ys ++ zs), length-append ys zs, middle)
  where
    count : b - a ≡ length ys
    count = omega arith

    middle : take (b - a) (drop a (xs ++ (ys ++ zs))) ≡ ys
    middle =
        ap (λ (t : ℕ). take t (drop a (xs ++ (ys ++ zs)))) count
        ∙ ap (λ (t : ℕ). take (length ys) (drop t (xs ++ (ys ++ zs)))) ea
        ∙ ap (λ (t : Bytes). take (length ys) t) (drop-append xs (ys ++ zs))
        ∙ take-append ys zs

-- A header: an opcode and its size field, for a number of data bytes.
record IsHeader (n : ℕ) (opcode : ℕ) (field : Bytes) : Type 0 where
  is_push_opcode : opcode ≤ 78
  field_length : length field ≡ size_field_len opcode
  field_value : data_len opcode field ≡ ok n

le2 : (n : ℕ) → n < 2 ^ 16 → n % 256 + n / 2 ^ 8 % 256 * 2 ^ 8 ≡ n
le2 n h = omega arith

le4 :
    (n : ℕ)
    → n < 2 ^ 32
    → n % 256 + n / 2 ^ 8 % 256 * 2 ^ 8 + n / 2 ^ 16 % 256 * 2 ^ 16 + n / 2 ^ 24 % 256 * 2 ^ 24 ≡ n
le4 n h = omega arith

push_header-IsHeader :
    (n : ℕ)
    → n < 2 ^ 32
    → (opcode : ℕ) × (field : Bytes) × (push_header n ≡ ok (opcode ∷ field))
      × IsHeader n opcode field
unfolding push_header size_field_len data_len
push_header-IsHeader n h = elim (Bool-cases (ltb n 76)) [
  | inl e ↦ (
    n,
    [],
    ground (arith, e),
    record {
      is_push_opcode = ground (arith, e);
      field_length = ground (arith, e);
      field_value = refl;
    },
  )
  | inr e ↦ elim (Bool-cases (ltb n (2 ^ 8))) [
    | inl e1 ↦ (
      76,
      n ∷ [],
      ground (arith, e, e1),
      record { is_push_opcode = omega arith; field_length = refl; field_value = refl },
    )
    | inr e1 ↦ elim (Bool-cases (ltb n (2 ^ 16))) [
      | inl e2 ↦ (
        77,
        le_bytes2 n,
        ground (arith, e, e1, e2),
        record {
          is_push_opcode = omega arith;
          field_length = refl;
          field_value = ap (λ (t : ℕ). ok t) (le2 n (ground (arith, e2)));
        },
      )
      | inr e2 ↦ (
        78,
        le_bytes4 n,
        ground (arith, e, e1, e2, h),
        record {
          is_push_opcode = omega arith;
          field_length = refl;
          field_value = ap (λ (t : ℕ). ok t) (le4 n h);
        },
      )
    ]
  ]
]

-- A push in front: its opcode, its size field, its data.
read_op-push :
    (opcode : ℕ) (field payload rest : Bytes)
    → IsHeader (length payload) opcode field
    → read_op (opcode ∷ (field ++ (payload ++ rest))) 0
      ≡ ok (whole opcode (1 + length field + length payload))
unfolding read_op read_push
read_op-push opcode field payload rest h = ground (
  arith,
  h.is_push_opcode,
  h.field_value,
  h.field_length,
  length-append field (payload ++ rest),
  length-append payload rest,
  slice-append (opcode ∷ []) field (payload ++ rest) 1 (1 + size_field_len opcode) refl
      (omega (arith, h.field_length)),
)

push_data-push :
    (opcode : ℕ) (field payload rest : Bytes)
    → IsHeader (length payload) opcode field
    → push_data (opcode ∷ (field ++ (payload ++ rest))) 0 (1 + length field + length payload)
      ≡ ok payload
unfolding push_data
push_data-push opcode field payload rest h = ground (
  arith,
  h.field_length,
  slice-append (opcode ∷ field) payload rest (1 + size_field_len opcode)
      (1 + length field + length payload) (omega (arith, h.field_length)) (omega arith),
)

next_op-push :
    (opcode : ℕ) (field payload rest script : Bytes) (n : ℕ)
    → IsHeader (length payload) opcode field
    → script ≡ opcode ∷ (field ++ (payload ++ rest))
    → n ≡ 1 + length field + length payload
    → next_op (reader_new script)
      ≡ ok (
        yield (record { opcode = opcode; payload = payload; end = n }),
        record { script = script; position = n; ops_read = 1 },
      )
unfolding next_op reader_new after_read take_op
next_op-push opcode field payload rest script n h es en = ground (
  arith,
  h.is_push_opcode,
  length-append field (payload ++ rest),
  length-append payload rest,
  ap (λ (t : Bytes). read_op t 0) es ∙ read_op-push opcode field payload rest h,
  ap (λ (t : Bytes). push_data t 0 n) es
      ∙ ap (λ (t : ℕ). push_data (opcode ∷ (field ++ (payload ++ rest))) 0 t) en
      ∙ push_data-push opcode field payload rest h,
  ap (λ (t : Bytes). length t) es,
)

-- Any data shorter than 2^32 are encoded, and whatever follows the encoding, the reader yields them
-- as the first opcode, a push that ends where the encoding does.
pub push_encoding-next_op :
    (payload rest : Bytes)
    → length payload < 2 ^ 32
    → (encoded : Bytes) × (opcode : ℕ) × (push_encoding payload ≡ ok encoded)
      × (is_push opcode ≡ true)
      × (next_op (reader_new (encoded ++ rest))
          ≡ ok (
            yield (record { opcode = opcode; payload = payload; end = length encoded }),
            record { script = encoded ++ rest; position = length encoded; ops_read = 1 },
          ))
push_encoding-next_op payload rest h =
    let (opcode, field, written_e, header) = push_header-IsHeader (length payload) h in
    let encoded : Bytes = opcode ∷ (field ++ payload) in
    let split : encoded ++ rest ≡ opcode ∷ (field ++ (payload ++ rest)) =
      ap (λ (t : Bytes). opcode ∷ t) (append_assoc field payload rest) in
    (
      encoded,
      opcode,
      unfold push_encoding in ground (arith, written_e, length-append field payload),
      unfold is_push in ground (arith, header.is_push_opcode),
      next_op-push opcode field payload rest (encoded ++ rest) (length encoded) header split
          (omega (arith, length-append field payload)),
    )
