-- ===== src/Script/Sighash/Segments.antt =====
-- The writing loop of `legacy_encode_script_code`, sighash.rs, one opcode at a time.
use bitmigo.Prelude.{
  ℕ, suc, ◌+◌, ◌-◌, ◌≤◌, ◌<◌, ◌≡◌, sym, ap, ◌∙◌, [], ◌++◌, ◌==◌, length, arith, append_assoc,
  Bool-cases, inl, inr,
}
use mathlib.Core.List.{append-nil}
use bitmigo.Script.Error.{Outcome, ok, ◌>>=◌}
use bitmigo.Script.Num.{Bytes}
use bitmigo.Script.Stack.{expect}
use bitmigo.Script.Reader.{whole, truncated, slice, read_op}
use bitmigo.Script.Reader.Pieces.{piece, pieces, piece_self, slice-piece}
use bitmigo.Script.Sighash.Legacy.{Segments, write_segments, finish_segments}

module _ (script : Bytes) where
  finish_segments-piece :
      (s : Segments)
      → s.segment_start ≤ s.position
      → s.position ≤ length script
      → finish_segments script s ≡ ok (s.engine ++ piece script s.segment_start s.position)
  unfolding finish_segments
  finish_segments-piece s h k = elim (Bool-cases (s.segment_start == length script)) [
    | inl t ↦
        let same : s.segment_start ≡ s.position = ground (arith, t) in
        let none_left : piece script s.segment_start s.position ≡ [] =
          ap (piece script s.segment_start) (sym same) ∙ piece_self script s.segment_start in
        ground (arith, t, none_left, append-nil s.engine)
    | inr f ↦ ground (arith, f, slice-piece script s.segment_start s.position h k)
  ]

  abbrev pub segments : Bytes → ℕ → ℕ → Segments
  segments engine start position = record {
    engine = engine;
    segment_start = start;
    position = position;
  }

  -- What the loop writes from its state on.
  abbrev pub Written : ℕ → Bytes → ℕ → ℕ → Bytes → Type 0
  Written fuel engine start position body =
      write_segments fuel script (segments engine start position) >>= finish_segments script
      ≡ ok (engine ++ (piece script start position ++ body))

  pub Written-end :
      (fuel : ℕ) (engine : Bytes) (start position : ℕ)
      → start ≤ position
      → position ≡ length script
      → Written (suc fuel) engine start position []
  unfolding write_segments
  Written-end fuel engine start position h e = ground (
    arith,
    e,
    finish_segments-piece (segments engine start position) h (omega (arith, e)),
    append-nil (piece script start position),
  )

  pub Written-cut :
      (fuel : ℕ) (engine : Bytes) (start position next : ℕ)
      → start ≤ position
      → position < length script
      → position ≤ next
      → next ≤ length script
      → read_op script position ≡ ok (truncated next)
      → Written (suc fuel) engine start position (piece script position next)
  unfolding write_segments
  Written-cut fuel engine start position next h inside after le e =
      let done : write_segments (suc fuel) script (segments engine start position)
          ≡ ok (segments engine start next) =
        ground (arith, inside, e) in
      ap (λ (o : Outcome Segments). o >>= finish_segments script) done
      ∙ finish_segments-piece (segments engine start next) (omega arith) le
      ∙ ap (λ (b : Bytes). ok (engine ++ b)) (sym (pieces script start position next h after))

  pub Written-separator :
      (fuel : ℕ) (engine : Bytes) (start position : ℕ) (body : Bytes)
      → start ≤ position
      → position < length script
      → read_op script position ≡ ok (whole 0xab (position + 1))
      → Written fuel (engine ++ piece script start position) (position + 1) (position + 1) body
      → Written (suc fuel) engine start position body
  unfolding write_segments
  Written-separator fuel engine start position body h inside e later =
      let one : position + 1 - 1 ≡ position = omega arith in
      let cut : expect (slice script start (position + 1 - 1)) ≡ ok (piece script start position) =
        ap (λ (n : ℕ). expect (slice script start n)) one
        ∙ slice-piece script start position h (omega (arith, inside)) in
      let goes_on : write_segments (suc fuel) script (segments engine start position)
          ≡ write_segments fuel script
              (segments (engine ++ piece script start position) (position + 1) (position + 1)) =
        ground (arith, inside, e, cut) in
      ap (λ (o : Outcome Segments). o >>= finish_segments script) goes_on
      ∙ later
      ∙ ap (λ (b : Bytes). ok ((engine ++ piece script start position) ++ (b ++ body)))
          (piece_self script (position + 1))
      ∙ ap ok (append_assoc engine (piece script start position) body)

  pub Written-keep :
      (fuel : ℕ) (engine : Bytes) (start position next opcode : ℕ) (body : Bytes)
      → start ≤ position
      → position < length script
      → position < next
      → ¬ (opcode ≡ 0xab)
      → read_op script position ≡ ok (whole opcode next)
      → Written fuel engine start next body
      → Written (suc fuel) engine start position (piece script position next ++ body)
  unfolding write_segments
  Written-keep fuel engine start position next opcode body h inside after n e later =
      let goes_on : write_segments (suc fuel) script (segments engine start position)
          ≡ write_segments fuel script (segments engine start next) =
        ground (arith, inside, after, n, e) in
      ap (λ (o : Outcome Segments). o >>= finish_segments script) goes_on
      ∙ later
      ∙ ap (λ (b : Bytes). ok (engine ++ (b ++ body)))
          (sym (pieces script start position next h (omega (arith, after))))
      ∙ ap (λ (b : Bytes). ok (engine ++ b))
          (append_assoc (piece script start position) (piece script position next) body)
