-- ===== src/Script/FindDelete/Deletes.antt =====
-- `find_and_delete` of interpreter.rs deletes the copies of the pattern, and nothing else.
use bitmigo.Prelude.{
  ℕ, zero, suc, ◌+◌, ◌-◌, ◌*◌, ◌≤◌, ◌<◌, ◌≡◌, refl, sym, ap, ◌∙◌, [], ◌∷◌, ◌++◌, length, drop,
  arith, leb, ◌==◌, append_assoc,
}
use mathlib.Core.Path.{subst}
use bitmigo.Script.Error.{Outcome, ok, check, Returns, Returns-bind, Returns-if, Returns-mono}
use bitmigo.Script.Num.{Bytes}
use bitmigo.Script.Stack.{expect}
use bitmigo.Script.Reader.{OpRead, whole, truncated, slice}
use bitmigo.Script.Reader.Safety.{Reads, read_op-Reads}
use bitmigo.Script.FindDelete.{
  skip_copies, Walk, walk_on, walk_round, walk, finish_walk, find_and_delete,
}
use bitmigo.Script.Reader.Pieces.{piece, piece_self, drop_all, slice-piece, piece_last}
use bitmigo.Script.FindDelete.Copies.{
  CopyAt, Deletes, at_end, at_cut, copy, keep, no_deletion, copy_fits, deletion_length, is_copy,
  matches_at-CopyAt, CopyAt-matches_at, IsDeletion,
}

module _ (script pattern : Bytes) (nonempty : 0 < length pattern) where
  -- The copies from `pc` on are passed, and none is left.
  abbrev Skips : ℕ → ℕ → ℕ × ℕ → Type 0
  Skips pc found (pc', found') =
      (pc ≤ pc')
      × (pc' ≤ length script)
      × (found ≤ found')
      × ¬ CopyAt script pattern pc'
      × ((kept : Bytes) (total : ℕ)
          → found' ≤ total
          → Deletes script pattern pc' kept (total - found')
          → Deletes script pattern pc kept (total - found))

  -- One copy more in front.
  Skips-copy :
      (pc found : ℕ) (p : ℕ × ℕ)
      → CopyAt script pattern pc
      → Skips (pc + length pattern) (found + 1) p
      → Skips pc found p
  Skips-copy pc found (pc', found') c hs = (
    omega (arith, hs.0),
    hs.1,
    omega (arith, hs.2),
    hs.3,
    λ kept total le d.
        let one : suc (total - (found + 1)) ≡ total - found = omega (arith, hs.2) in
        subst (Deletes script pattern pc kept) one (copy c (hs.4 kept total le d)),
  )

  skip_copies-Skips :
      (fuel pc found : ℕ)
      → pc ≤ length script
      → length script < fuel + pc
      → Returns (Skips pc found) (skip_copies fuel script pattern pc found)
  unfolding skip_copies
  skip_copies-Skips zero pc found h f = absurd (omega arith)
  skip_copies-Skips (suc fuel) pc found h f =
      Returns-bind (λ _. Unit) (Skips pc found) (check (leb pc (length script))) _ (ground arith)
        λ _ _.
          Returns-if (Skips pc found) (is_copy script pattern pc) _ _
            (λ e.
              let c : CopyAt script pattern pc = matches_at-CopyAt script pattern pc h e in
              Returns-mono _ _ (skip_copies fuel script pattern (pc + length pattern) (found + 1))
                (λ p hs. Skips-copy pc found p c hs)
                (skip_copies-Skips fuel (pc + length pattern) (found + 1)
                  (copy_fits script pattern pc h c) (omega arith)))
            (λ e.
              let here : Skips pc found (pc, found) = (
                omega arith,
                h,
                omega arith,
                λ c. absurd (ground (arith, e, CopyAt-matches_at script pattern pc h c)),
                λ kept total le d. d,
              ) in
              here)

  -- The end of the walk, seen from `pc` on, before which `written` was written.
  abbrev Ends : Bytes → ℕ → ℕ → Walk → Type 0
  Ends written pc found w =
      (w.pc2 ≤ length script)
      × (found ≤ w.found)
      × ((kept : Bytes) × Deletes script pattern pc kept (w.found - found)
          × (w.result ++ drop w.pc2 script ≡ written ++ kept))

  Ends-keep :
      (written : Bytes) (pc next found opcode : ℕ) (w : Walk)
      → ¬ CopyAt script pattern pc
      → Reads script pc (whole opcode next)
      → Ends (written ++ piece script pc next) next found w
      → Ends written pc found w
  Ends-keep written pc next found opcode w n hr he =
      let (kept, d, e) = he.2 in
      (
        he.0,
        he.1,
        (
          piece script pc next ++ kept,
          keep opcode n hr.2 hr.3 hr.1 d,
          e ∙ append_assoc written (piece script pc next) kept,
        ),
      )

  walk_on-Ends :
      (continue_at : ℕ → Outcome Walk) (w : Walk) (step : OpRead)
      → ¬ CopyAt script pattern w.pc2
      → w.pc2 ≤ length script
      → Reads script w.pc2 step
      → ((next : ℕ)
          → w.pc2 < next
          → next ≤ length script
          → Returns (Ends (w.result ++ piece script w.pc2 next) next w.found) (continue_at next))
      → Returns (Ends w.result w.pc2 w.found) (walk_on continue_at w step)
  unfolding walk_on
  walk_on-Ends continue_at w (whole opcode next) n h hr k =
      Returns-mono _ _ (continue_at next)
        (λ w' he. Ends-keep w.result w.pc2 next w.found opcode w' n hr he)
        (k next (omega (arith, hr.0)) hr.1)
  walk_on-Ends continue_at w (truncated next) n h hr k =
      let none_more : 0 ≡ w.found - w.found = omega arith in
      (
        h,
        omega arith,
        (
          drop w.pc2 script,
          subst (Deletes script pattern w.pc2 (drop w.pc2 script)) none_more (at_cut n hr.2),
          refl,
        ),
      )

  walk_round-Ends :
      (continue_at : ℕ → Outcome Walk) (w : Walk)
      → ¬ CopyAt script pattern w.pc2
      → w.pc2 ≤ length script
      → ((next : ℕ)
          → w.pc2 < next
          → next ≤ length script
          → Returns (Ends (w.result ++ piece script w.pc2 next) next w.found) (continue_at next))
      → Returns (Ends w.result w.pc2 w.found) (walk_round continue_at script w)
  unfolding walk_round
  walk_round-Ends continue_at w n h k =
      let none_more : 0 ≡ w.found - w.found = omega arith in
      Returns-if (Ends w.result w.pc2 w.found) (leb (length script) w.pc2) (ok w) _
        (λ e.
          let done : w.pc2 ≡ length script = ground (arith, e) in
          (
            h,
            omega arith,
            (
              [],
              subst (Deletes script pattern w.pc2 []) none_more (at_end done),
              ap (λ (t : Bytes). w.result ++ t) (sym (drop_all script w.pc2 done)),
            ),
          ))
        (λ e.
          Returns-bind (Reads script w.pc2) (Ends w.result w.pc2 w.found) _ _
            (read_op-Reads script w.pc2 (ground (arith, e)))
            λ step hr. walk_on-Ends continue_at w step n h hr k)

  Ends-Skips :
      (written : Bytes) (pc found : ℕ) (p : ℕ × ℕ) (w : Walk)
      → Skips pc found p
      → Ends written p.0 p.1 w
      → Ends written pc found w
  Ends-Skips written pc found (pc', found') w hs he =
      let (kept, d, e) = he.2 in
      (he.0, omega (arith, hs.2, he.1), (kept, hs.4 kept w.found he.1 d, e))

  walk-Ends :
      (fuel : ℕ) (result : Bytes) (found pc pc2 : ℕ)
      → pc2 ≤ pc
      → pc ≤ length script
      → length script < fuel + pc
      → Returns
          (Ends (result ++ piece script pc2 pc) pc found)
          (walk fuel script pattern result found pc pc2)
  unfolding walk
  walk-Ends zero result found pc pc2 h k f = absurd (omega arith)
  walk-Ends (suc fuel) result found pc pc2 h k f =
      let written : Bytes = result ++ piece script pc2 pc in
      Returns-bind (λ (t : Bytes). t ≡ piece script pc2 pc) (Ends written pc found) _ _
        (subst (Returns (λ (t : Bytes). t ≡ piece script pc2 pc))
          (sym (slice-piece script pc2 pc h k)) refl)
        λ t same.
          Returns-bind (Skips pc found) (Ends written pc found) _ _
            (skip_copies-Skips (suc (length script)) pc found k (omega arith))
            λ p hs.
              let w : Walk = record { result = result ++ t; found = p.1; pc2 = p.0 } in
              let same_written : result ++ t ≡ written = ap (λ (u : Bytes). result ++ u) same in
              Returns-mono (Ends (result ++ t) p.0 p.1) (Ends written pc found) _
                (λ w' he.
                  Ends-Skips written pc found p w' hs
                    (subst (λ (u : Bytes). Ends u p.0 p.1 w') same_written he))
                (walk_round-Ends (λ next. walk fuel script pattern (result ++ t) p.1 next p.0) w
                  hs.3 hs.1
                  λ next lt le.
                    walk-Ends fuel (result ++ t) p.1 next p.0 (omega (arith, lt)) le
                      (omega (arith, lt, hs.0)))

  rest_written :
      (w : Walk) (kept : Bytes)
      → w.pc2 ≤ length script
      → w.result ++ drop w.pc2 script ≡ kept
      → Returns (λ rest. w.result ++ rest ≡ kept) (expect (slice script w.pc2 (length script)))
  rest_written w kept h e =
      subst (Returns (λ rest. w.result ++ rest ≡ kept))
        (sym (slice-piece script w.pc2 (length script) h (omega arith)))
        (ap (λ (t : Bytes). w.result ++ t) (piece_last script w.pc2 h) ∙ e)

  finish_walk-Deletes :
      (w : Walk)
      → Ends [] 0 0 w
      → Returns (λ p. Deletes script pattern 0 p.0 p.1) (finish_walk script pattern w)
  unfolding finish_walk
  finish_walk-Deletes w (inside, _, (kept, d, e)) =
      let all_found : w.found - 0 ≡ w.found = omega arith in
      let d' : Deletes script pattern 0 kept w.found =
        subst (Deletes script pattern 0 kept) all_found d in
      Returns-if (λ p. Deletes script pattern 0 p.0 p.1) (w.found == 0) (ok (script, 0)) _
        (λ none.
          let zero_found : w.found ≡ 0 = ground (arith, none) in
          subst (Deletes script pattern 0 script) zero_found (
            subst (λ (k : Bytes). Deletes script pattern 0 k w.found)
              (no_deletion script pattern d' zero_found) d'))
        (λ some_found.
          Returns-bind (λ rest. w.result ++ rest ≡ kept) (λ p. Deletes script pattern 0 p.0 p.1) _ _
            (rest_written w kept inside e)
            λ rest same.
              Returns-bind (λ _. Unit) (λ p. Deletes script pattern 0 p.0 p.1)
                (check (length (w.result ++ rest) + w.found * length pattern == length script)) _
                (ground (
                  arith,
                  deletion_length script pattern d' (omega arith),
                  ap (λ (t : Bytes). length t) same,
                ))
                λ _ _. subst (λ (k : Bytes). Deletes script pattern 0 k w.found) (sym same) d')

-- `find_and_delete` always returns, and what it returns is what the description by copies and
-- opcodes has: from the first opcode's boundary on, every copy of the pattern that stands at a
-- boundary, or directly behind a deleted copy, is deleted and counted, and nothing else, up to the
-- end of the script or to an opcode that the end cuts off. An empty pattern deletes nothing.
pub find_and_delete-IsDeletion :
    (script pattern : Bytes) → Returns (IsDeletion script pattern) (find_and_delete script pattern)
unfolding find_and_delete
find_and_delete-IsDeletion script [] = (refl, refl)
find_and_delete-IsDeletion script (byte ∷ bytes) =
    let pattern : Bytes = byte ∷ bytes in
    let nonempty : 0 < length pattern = omega arith in
    let written_before : [] ++ piece script 0 0 ≡ [] = piece_self script 0 in
    Returns-if (IsDeletion script pattern) (length pattern == 0) (ok (script, 0)) _
      (λ e. absurd (ground (arith, e)))
      λ e.
        Returns-bind (Ends script pattern nonempty [] 0 0) (IsDeletion script pattern) _ _
          (subst
            (λ (u : Bytes).
              Returns (Ends script pattern nonempty u 0 0)
                (walk (suc (length script)) script pattern [] 0 0 0))
            written_before
            (walk-Ends script pattern nonempty (suc (length script)) [] 0 0 0 (omega arith)
              (omega arith) (omega arith)))
          (finish_walk-Deletes script pattern nonempty)
