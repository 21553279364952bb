-- ===== src/Script/Taproot/Control.antt =====
-- What a parsed control block holds, and the commitment on it (taproot.rs).
use bitmigo.Prelude.{
  ℕ, suc, ◌+◌, ◌-◌, ◌%◌, ◌≤◌, ◌≡◌, refl, ap, ◌∙◌, suc, Bool, true, false, ◌&&◌, [], ◌∷◌, ◌++◌, leb,
  ◌==◌, if◌then◌else◌, length, take, drop, arith, length-take, length-drop, take-append-drop,
}
use bitmigo.Script.Error.{ok, err, NoPanic, taproot_wrong_control_size}
use bitmigo.Script.Num.{Bytes}
use bitmigo.Script.Taproot.{
  Primitives, ControlBlock, split_control, parse_control, path_len, taproot_merkle_root,
  verify_taproot_commitment,
}

-- 33 bytes and up to 128 nodes of 32 bytes.
abbrev pub is_control_size : ℕ → Bool
is_control_size n = leb 33 n && (leb n 4129 && (n - 33) % 32 == 0)

-- A key of 32 bytes, and a path of whole nodes, 128 of them at most.
pub record IsControl (c : ControlBlock) : Type 0 where
  pub key_ok : length c.internal_key ≡ 32
  pub nodes_ok : length c.path % 32 ≡ 0
  pub depth_ok : length c.path ≤ 4096
  pub version_ok : c.leaf_version % 2 ≡ 0

-- The bytes of a control block.
abbrev pub control_bytes : ControlBlock → Bytes
control_bytes c =
    (c.leaf_version + (if c.output_parity_odd then 1 else 0)) ∷ (c.internal_key ++ c.path)

first_byte : (n : ℕ) → n - n % 2 + (if n % 2 == 1 then 1 else 0) ≡ n
first_byte n = ground arith

split_control-IsControl :
    (first : ℕ) (rest : Bytes)
    → is_control_size (suc (length rest)) ≡ true
    → (c : ControlBlock) × (split_control (first ∷ rest) ≡ ok c)
      × IsControl c
      × (control_bytes c ≡ first ∷ rest)
unfolding split_control
split_control-IsControl first rest h =
    let key_length = length-take 32 rest in
    let path_length = length-drop 32 rest in
    (
      record {
        leaf_version = first - first % 2;
        output_parity_odd = first % 2 == 1;
        internal_key = take 32 rest;
        path = drop 32 rest;
      },
      ground (arith, h, path_length),
      record {
        key_ok = ground (arith, h, key_length);
        nodes_ok = ground (arith, h, path_length);
        depth_ok = ground (arith, h, path_length);
        version_ok = omega arith;
      },
      ap (λ (x : ℕ). x ∷ (take 32 rest ++ drop 32 rest)) (first_byte first)
          ∙ ap (λ (t : Bytes). first ∷ t) (take-append-drop 32 rest),
    )

pub parse_control-split :
    (bytes : Bytes)
    → is_control_size (length bytes) ≡ true
    → parse_control bytes ≡ split_control bytes
unfolding parse_control
parse_control-split bytes h = ground (arith, h)

parse_control-error :
    (bytes : Bytes)
    → is_control_size (length bytes) ≡ false
    → parse_control bytes ≡ err taproot_wrong_control_size
unfolding parse_control
parse_control-error bytes h = ground (arith, h)

-- What the length of the bytes decides.
abbrev pub Parses : Bytes → Bool → Type 0
Parses bytes true =
    (c : ControlBlock) × (parse_control bytes ≡ ok c) × IsControl c × (control_bytes c ≡ bytes)
Parses bytes false = parse_control bytes ≡ err taproot_wrong_control_size

Parses-is_control_size :
    (bytes : Bytes) (b : Bool) → is_control_size (length bytes) ≡ b → Parses bytes b
Parses-is_control_size bytes false e = parse_control-error bytes e
Parses-is_control_size [] true e = absurd (ground (arith, e))
Parses-is_control_size (first ∷ rest) true e =
    let (c, s, h, same) = split_control-IsControl first rest e in
    (c, parse_control-split (first ∷ rest) e ∙ s, h, same)

-- Parsing never panics: it fails, with the one error, exactly on the lengths that are not 33 and
-- up to 128 times 32 bytes, and else gives a well-formed control block of the same bytes.
pub parse_control-IsControl : (bytes : Bytes) → Parses bytes (is_control_size (length bytes))
parse_control-IsControl bytes = Parses-is_control_size bytes (is_control_size (length bytes)) refl

pub commitment-NoPanic :
    (p : Primitives) (c : ControlBlock) (output_key leaf_hash : Bytes)
    → IsControl c
    → NoPanic (verify_taproot_commitment p c output_key leaf_hash)
unfolding verify_taproot_commitment taproot_merkle_root path_len
commitment-NoPanic p c output_key leaf_hash h = ground (arith, h.nodes_ok, h.depth_ok)
