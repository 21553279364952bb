-- ===== src/Script/Sighash/Separators.antt =====
-- `legacy_encode_script_code` of sighash.rs against a description that goes opcode by opcode.
use bitmigo.Prelude.{
  ℕ, zero, suc, ◌+◌, ◌-◌, ◌≤◌, ◌<◌, ◌≡◌, refl, sym, ap, ◌∙◌, ◌++◌, some, length, get_elem?, arith,
}
use mathlib.Core.Path.{subst}
use bitmigo.Script.Error.{ok, ◌>>=◌, Returns}
use bitmigo.Script.Num.{Bytes}
use bitmigo.Script.Reader.{whole, read_op}
use bitmigo.Script.Reader.Safety.{op_end, cut_end}
use bitmigo.Script.Reader.Pieces.{piece, piece_self, op_end-after, read_op-whole, read_op-cut}
use bitmigo.Script.Sighash.{Encoders}
use bitmigo.Script.Sighash.Engine.{Writes}
use bitmigo.Script.Sighash.Stripped.{
  Strips, at_end, at_cut, separator, keep, get_elem?-inside, Strips-count, Strips-from,
}
use bitmigo.Script.Sighash.Legacy.{
  count_separators, write_segments, finish_segments, legacy_encode_script_code,
}
use bitmigo.Script.Sighash.Segments.{
  segments, Written, Written-end, Written-cut, Written-separator, Written-keep,
}

separator_read :
    (script : Bytes) (position : ℕ)
    → get_elem? script position ≡ some 0xab
    → read_op script position ≡ ok (whole 0xab (position + 1))
separator_read script position e =
    let inside : position < length script = get_elem?-inside script position 0xab e in
    let one : op_end script position 0xab ≡ position + 1 = omega arith in
    read_op-whole script position 0xab inside e (omega (arith, one))
    ∙ ap (λ (n : ℕ). ok (whole 0xab n)) one

keep_read :
    (script : Bytes) (position opcode next : ℕ)
    → get_elem? script position ≡ some opcode
    → next ≡ op_end script position opcode
    → next ≤ length script
    → read_op script position ≡ ok (whole opcode next)
keep_read script position opcode next e same le =
    read_op-whole script position opcode (get_elem?-inside script position opcode e) e
      (omega (arith, same))
    ∙ ap (λ (n : ℕ). ok (whole opcode n)) (sym same)

module _ (script : Bytes) where
  counts :
      {position count : ℕ} {body : Bytes}
      → Strips script position count body
      → position ≤ length script
      → (fuel before : ℕ) → length script < fuel + position
      → count_separators fuel script position before ≡ ok (before + count)
  unfolding count_separators
  counts (at_end e) h zero before f = absurd (omega arith)
  counts (at_end e) h (suc fuel) before f = ground (arith, e)
  counts (at_cut opcode e lt) h zero before f = absurd (omega arith)
  counts (at_cut {position} opcode e lt) h (suc fuel) before f =
      let inside : position < length script = get_elem?-inside script position opcode e in
      ground (arith, inside, read_op-cut script position opcode inside e lt)
  counts (separator e s) h zero before f = absurd (omega arith)
  counts (separator {position} {count} e s) h (suc fuel) before f =
      let inside : position < length script = get_elem?-inside script position 0xab e in
      ground (
        arith,
        inside,
        separator_read script position e,
        counts s (omega (arith, inside)) fuel (before + 1) (omega arith),
      )
  counts (keep opcode e n same le s) h zero before f = absurd (omega arith)
  counts (keep {position} {next} opcode e n same le s) h (suc fuel) before f =
      let inside : position < length script = get_elem?-inside script position opcode e in
      let after : position < next = omega (arith, same, op_end-after script position opcode) in
      ground (
        arith,
        inside,
        after,
        n,
        keep_read script position opcode next e same le,
        counts s le fuel before (omega (arith, after)),
      )

  cut_end-inside :
      (position opcode : ℕ)
      → position < length script
      → (position ≤ cut_end script position opcode)
        × (cut_end script position opcode ≤ length script)
  cut_end-inside position opcode h = ground arith

  writes :
      {position count : ℕ} {body : Bytes}
      → Strips script position count body
      → position ≤ length script
      → (fuel start : ℕ) (engine : Bytes) → start ≤ position
      → length script < fuel + position
      → Written script fuel engine start position body
  writes (at_end e) h zero start engine k f = absurd (omega arith)
  writes (at_end {position} e) h (suc fuel) start engine k f =
      Written-end script fuel engine start position k e
  writes (at_cut opcode e lt) h zero start engine k f = absurd (omega arith)
  writes (at_cut {position} opcode e lt) h (suc fuel) start engine k f =
      let inside : position < length script = get_elem?-inside script position opcode e in
      let (after, le) = cut_end-inside position opcode inside in
      Written-cut script fuel engine start position (cut_end script position opcode) k inside after
        le (read_op-cut script position opcode inside e lt)
  writes (separator e s) h zero start engine k f = absurd (omega arith)
  writes (separator {position} {count} {body} e s) h (suc fuel) start engine k f =
      let inside : position < length script = get_elem?-inside script position 0xab e in
      Written-separator script fuel engine start position body k inside
        (separator_read script position e)
        (writes s (omega (arith, inside)) fuel (position + 1)
          (engine ++ piece script start position) (omega arith) (omega arith))
  writes (keep opcode e n same le s) h zero start engine k f = absurd (omega arith)
  writes (keep {position} {next} {count} {body} opcode e n same le s) h (suc fuel) start engine k
        f =
      let inside : position < length script = get_elem?-inside script position opcode e in
      let after : position < next = omega (arith, same, op_end-after script position opcode) in
      Written-keep script fuel engine start position next opcode body k inside after n
        (keep_read script position opcode next e same le)
        (writes s le fuel start engine (omega (arith, after)) (omega (arith, after)))

-- The length of the script without its separators, and its bytes without them, behind what was
-- written before.
abbrev pub IsStripped : Encoders → Bytes → Bytes → Bytes → Type 0
IsStripped e engine script written =
    (count : ℕ) × (body : Bytes) × Strips script 0 count body
    × (count ≤ length script)
    × (written ≡ (engine ++ e.var_int (length script - count)) ++ body)

-- `legacy_encode_script_code`, given encoders that write a byte at least, always returns, and
-- writes behind what was there the length of the script less the number of its separators, the
-- opcodes OP_CODESEPARATOR, and then every opcode with its data but the separators. A push that the
-- end of the script cuts off ends the script: of it, the opcode's byte is written, and its length
-- if all of that is there.
pub script_code-IsStripped :
    (e : Encoders) (engine script : Bytes)
    → Writes e
    → Returns (IsStripped e engine script) (legacy_encode_script_code e engine script)
unfolding legacy_encode_script_code
script_code-IsStripped e engine script w =
    let fuel : ℕ = suc (length script) in
    let (count, body, s) = Strips-from script fuel 0 (omega arith) (omega arith) in
    let few : count ≤ length script = omega (arith, Strips-count s (omega arith)) in
    let engine' : Bytes = engine ++ e.var_int (length script - count) in
    let counted : count_separators fuel script 0 0 ≡ ok count =
      counts script s (omega arith) fuel 0 (omega arith) ∙ ap (λ (n : ℕ). ok n) (omega arith) in
    let written : write_segments fuel script (segments script engine' 0 0)
          >>= finish_segments script
        ≡ ok (engine' ++ (piece script 0 0 ++ body)) =
      writes script s (omega arith) fuel 0 engine' (omega arith) (omega arith) in
    let result : legacy_encode_script_code e engine script ≡ ok (engine' ++ body) =
      ground
        (arith, counted, few, w.var_int_ok (length script - count), written, piece_self script 0) in
    subst (Returns (IsStripped e engine script)) (sym result) (count, body, s, few, refl)
