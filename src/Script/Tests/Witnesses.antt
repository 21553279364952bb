-- ===== src/Script/Tests/Witnesses.antt =====
-- The properties at concrete inputs.
use bitmigo.Prelude.{ℕ, ◌≡◌, ◌≤◌, ◌++◌, ◌↔◌, refl, Bool, true, false, not, [], ◌∷◌, length, arith}
use bitmigo.Prelude.Int.{pos, negsuc, ◌+ℤ◌, ◌-ℤ◌}
use bitmigo.Script.Error.{Returns, ok, panic, Safe}
use bitmigo.Script.Num.{Bytes, decode, encode, cast_to_bool, is_zero}
use bitmigo.Script.Stack.Safety.{IsStack}
use bitmigo.Script.Machine.{exec_legacy}
use bitmigo.Script.Num.{decode_value, magnitude_loop, last_byte}
use bitmigo.Script.Num.Codec.{decode-encode, encode_shortest}
use bitmigo.Script.Num.RoundTrip.{cast_to_bool-decode}
use bitmigo.Script.Conditions.{
  conditions_new, conditions_push, conditions_pop, toggle_top, all_true, conditions_empty,
}
use bitmigo.Script.Conditions.Refine.{of_nest, all_of, conditions_refine}
use bitmigo.Script.Der.{is_valid_signature_encoding}
use bitmigo.Script.Der.Safety.{is_valid-is_der}
use bitmigo.Script.FindDelete.{find_and_delete}
use bitmigo.Script.FindDelete.Copies.{IsDeletion}
use bitmigo.Script.FindDelete.Deletes.{find_and_delete-IsDeletion}
use bitmigo.Script.Opcode
use bitmigo.Script.Reader.{reader_new, next_op, Op}
use bitmigo.Script.Reader.Safety.{Advances, next_op-Advances}
use bitmigo.Script.Signatures.{checkmultisig}
use bitmigo.Script.Signatures.Safety.{Kept}
use bitmigo.Script.Signatures.Multisig.{checkmultisig-Safe}
use bitmigo.Script.Interpreter.Safety.{Ran}
use bitmigo.Script.Interpreter.Execute.{execute-Safe}
use bitmigo.Script.Interpreter.{eval_script, execute}
use bitmigo.Script.Interpreter.Nesting.{nested_ifs, nested_ifs-panics}
use bitmigo.Script.Stack.{Stack}
use bitmigo.Script.StackOps.{stack_op_pairs, stack_op_singles}
use bitmigo.Script.StackOps.Effects.{with, pair_effects, pick_roll_effects}
use bitmigo.Script.Opcode.{is_push}
use bitmigo.Script.Flags.{contains}
use bitmigo.Script.Der.{check_signature_encoding}
use bitmigo.Script.Reader.{push_encoding, yield}
use bitmigo.Script.Reader.RoundTrip.{push_encoding-next_op}
use bitmigo.Script.Numeric.{numeric_binary}
use bitmigo.Script.Numeric.Values.{Leaves, Tells, binary_values}
use bitmigo.Script.Signatures.{checkmultisig_verify}
use bitmigo.Script.Signatures.Matching.{Matched, items_from, verify-Matched}
use bitmigo.Script.Interpreter.Total.{eval_script-Safe}
use bitmigo.Script.Tests.World.{
  tapscript_env, tapscript_exec_data, strict_env, same_first, all_items-IsStack, lenient-safe,
  zero_hashes-safe, sample_script, sample_env, sample_machine, sample_machine-IsMachine,
  multisig_stack, all_bytes-IsBytes,
}

eval_script-Safe_example :
    Safe (λ p. IsStack p.0 × (length p.0 ≤ 1000)) (eval_script sample_env [] exec_legacy)
unfolding exec_legacy
eval_script-Safe_example =
    eval_script-Safe sample_env [] exec_legacy lenient-safe zero_hashes-safe
      (all_bytes-IsBytes sample_script refl) (omega arith) (λ e. omega arith) tt (omega arith) refl

conditions_refine_example :
    (conditions_new ≡ of_nest [])
    × (conditions_push false (of_nest (true ∷ [])) ≡ ok (of_nest (false ∷ true ∷ [])))
    × (conditions_pop (of_nest (false ∷ true ∷ [])) ≡ ok (of_nest (true ∷ [])))
    × (toggle_top (of_nest (false ∷ true ∷ [])) ≡ ok (of_nest (true ∷ true ∷ [])))
    × (all_true (of_nest (true ∷ [])) ≡ all_of (true ∷ []))
    × (conditions_empty (of_nest (true ∷ [])) ≡ false)
conditions_refine_example = conditions_refine false (true ∷ []) (omega arith)

-- -1000 takes the bytes e8 83.
decode-encode_example :
    (bytes : Bytes) × (encode (negsuc 999) ≡ ok bytes)
    × (length bytes ≤ 4)
    × (decode bytes 4 ≡ ok (negsuc 999))
decode-encode_example = decode-encode (negsuc 999) 3 (omega arith) (omega arith)

-- 01 00 80 is a padded -1.
encode_shortest_example : (short : Bytes) × (encode (negsuc 0) ≡ ok short) × (length short ≤ 3)
unfolding decode decode_value magnitude_loop last_byte
encode_shortest_example =
    encode_shortest (0x01 ∷ 0x00 ∷ 0x80 ∷ []) 4 (negsuc 0)
      (all_bytes-IsBytes (0x01 ∷ 0x00 ∷ 0x80 ∷ []) refl) refl

-- 00 80 is a negative zero.
cast_to_bool-decode_example : cast_to_bool (0x00 ∷ 0x80 ∷ []) ≡ not (is_zero (pos 0))
unfolding decode decode_value magnitude_loop last_byte
cast_to_bool-decode_example =
    cast_to_bool-decode (0x00 ∷ 0x80 ∷ []) 4 (pos 0) (all_bytes-IsBytes (0x00 ∷ 0x80 ∷ []) refl)
      refl

abbrev der_signature : Bytes
der_signature = 0x30 ∷ 6 ∷ 2 ∷ 1 ∷ 5 ∷ 2 ∷ 1 ∷ 7 ∷ 1 ∷ []

is_valid-is_der_example : is_valid_signature_encoding der_signature ≡ ok true
is_valid-is_der_example = is_valid-is_der der_signature

find_and_delete-IsDeletion_example :
    Returns
      (IsDeletion sample_script (0x51 ∷ 0x63 ∷ []))
      (find_and_delete sample_script (0x51 ∷ 0x63 ∷ []))
find_and_delete-IsDeletion_example = find_and_delete-IsDeletion sample_script (0x51 ∷ 0x63 ∷ [])

next_op-Advances_example :
    Returns (Advances (reader_new sample_script)) (next_op (reader_new sample_script))
unfolding reader_new
next_op-Advances_example =
    next_op-Advances (reader_new sample_script)
      (record { inside = omega arith; counted = omega arith })
      (all_bytes-IsBytes sample_script refl) (omega arith)

checkmultisig-Safe_example :
    Safe
      (Kept sample_env lenient-safe (sample_machine multisig_stack))
      (checkmultisig sample_env Opcode.op_checkmultisig (sample_machine multisig_stack))
checkmultisig-Safe_example =
    checkmultisig-Safe sample_env lenient-safe Opcode.op_checkmultisig
      (sample_machine multisig_stack) (sample_machine-IsMachine multisig_stack refl)

abbrev dup_op : Op
dup_op = record { opcode = 0x76; payload = []; end = 1 }

execute-Safe_example :
    Safe
      (Ran sample_env lenient-safe (sample_machine multisig_stack))
      (execute sample_env dup_op true 0 (sample_machine multisig_stack))
execute-Safe_example =
    execute-Safe sample_env lenient-safe zero_hashes-safe dup_op true 0 (omega arith)
      (sample_machine multisig_stack)
      (record {
        machine_ok = sample_machine-IsMachine multisig_stack refl;
        sizes_ok = omega arith;
        depth_ok = omega arith;
      })

abbrev one_of : ℕ → Bytes
one_of b = b ∷ []

pair_effects_example :
    let m = sample_machine [] in
    let s : Stack = one_of 9 ∷ [] in
    (stack_op_pairs Opcode.op_2drop (with m (one_of 1 ∷ one_of 2 ∷ s)) ≡ ok (with m s))
    × (stack_op_pairs Opcode.op_2dup (with m (one_of 1 ∷ one_of 2 ∷ s))
        ≡ ok (with m (one_of 1 ∷ one_of 2 ∷ one_of 1 ∷ one_of 2 ∷ s)))
    × (stack_op_pairs Opcode.op_3dup (with m (one_of 1 ∷ one_of 2 ∷ one_of 3 ∷ s))
        ≡ ok (with m (one_of 1 ∷ one_of 2 ∷ one_of 3 ∷ one_of 1 ∷ one_of 2 ∷ one_of 3 ∷ s)))
    × (stack_op_pairs Opcode.op_2over (with m (one_of 1 ∷ one_of 2 ∷ one_of 3 ∷ one_of 4 ∷ s))
        ≡ ok (with m (one_of 3 ∷ one_of 4 ∷ one_of 1 ∷ one_of 2 ∷ one_of 3 ∷ one_of 4 ∷ s)))
    × (stack_op_pairs Opcode.op_2rot
          (with m (one_of 1 ∷ one_of 2 ∷ one_of 3 ∷ one_of 4 ∷ one_of 5 ∷ one_of 6 ∷ s))
        ≡ ok (with m (one_of 5 ∷ one_of 6 ∷ one_of 1 ∷ one_of 2 ∷ one_of 3 ∷ one_of 4 ∷ s)))
    × (stack_op_pairs Opcode.op_2swap (with m (one_of 1 ∷ one_of 2 ∷ one_of 3 ∷ one_of 4 ∷ s))
        ≡ ok (with m (one_of 3 ∷ one_of 4 ∷ one_of 1 ∷ one_of 2 ∷ s)))
pair_effects_example =
    pair_effects (sample_machine []) (one_of 1) (one_of 2) (one_of 3) (one_of 4) (one_of 5)
      (one_of 6) (one_of 9 ∷ [])
      (all_items-IsStack
        (one_of 1 ∷ one_of 2 ∷ one_of 3 ∷ one_of 4 ∷ one_of 5 ∷ one_of 6 ∷ one_of 9 ∷ []) refl)

-- The second element below the depth.
pick_roll_effects_example :
    (stack_op_singles Opcode.op_pick (one_of 1 ∷ one_of 7 ∷ one_of 8 ∷ one_of 9 ∷ [])
      ≡ ok (one_of 8 ∷ one_of 7 ∷ one_of 8 ∷ one_of 9 ∷ []))
    × (stack_op_singles Opcode.op_roll (one_of 1 ∷ one_of 7 ∷ one_of 8 ∷ one_of 9 ∷ [])
        ≡ ok (one_of 8 ∷ one_of 7 ∷ one_of 9 ∷ []))
unfolding decode decode_value magnitude_loop last_byte
pick_roll_effects_example =
    pick_roll_effects (one_of 1) (one_of 8) 1 (one_of 7 ∷ one_of 8 ∷ one_of 9 ∷ [])
      (all_items-IsStack (one_of 7 ∷ one_of 8 ∷ one_of 9 ∷ []) refl) (omega arith) refl refl

push_encoding-next_op_example :
    (encoded : Bytes) × (opcode : ℕ) × (push_encoding sample_script ≡ ok encoded)
    × (is_push opcode ≡ true)
    × (next_op (reader_new (encoded ++ (0x51 ∷ [])))
        ≡ ok (
          yield (record { opcode = opcode; payload = sample_script; end = length encoded }),
          record { script = encoded ++ (0x51 ∷ []); position = length encoded; ops_read = 1 },
        ))
push_encoding-next_op_example = push_encoding-next_op sample_script (0x51 ∷ []) (omega arith)

-- 7 and -2.
binary_values_example :
    let s : Stack = one_of 9 ∷ [] in
    let operands : Stack = one_of 0x82 ∷ one_of 7 ∷ s in
    Leaves (numeric_binary Opcode.op_add operands) s (pos 7 +ℤ negsuc 1)
    × Leaves (numeric_binary Opcode.op_sub operands) s (pos 7 -ℤ negsuc 1)
    × Tells (numeric_binary Opcode.op_lessthan operands) s false
    × Tells (numeric_binary Opcode.op_numequal operands) s false
    × Leaves (numeric_binary Opcode.op_min operands) s (negsuc 1)
    × Leaves (numeric_binary Opcode.op_max operands) s (pos 7)
unfolding decode decode_value magnitude_loop last_byte
binary_values_example =
    binary_values (one_of 7) (one_of 0x82) (pos 7) (negsuc 1) (one_of 9 ∷ [])
      (all_bytes-IsBytes (one_of 7) refl) (all_bytes-IsBytes (one_of 0x82) refl) refl refl

-- One signature, two keys: the second key verifies it.
verify-Matched_example :
    (matched : Bool) × (checkmultisig_verify 20 strict_env multisig_stack 2 5 2 1 [] ≡ ok matched)
    × ((matched ≡ true)
        ↔ Matched same_first (items_from multisig_stack 5 1) (items_from multisig_stack 2 2))
unfolding check_signature_encoding contains
verify-Matched_example =
    verify-Matched same_first strict_env multisig_stack [] 2 5 2 1 (λ g k. refl) (refl, tt)
      (omega arith) (omega arith) (omega arith) (omega arith) (omega arith) (omega arith)

nested_ifs-panics_example :
    eval_script (tapscript_env (nested_ifs 10002)) [] tapscript_exec_data ≡ panic
nested_ifs-panics_example =
    nested_ifs-panics (tapscript_env (nested_ifs 10002)) tapscript_exec_data 10002 refl refl refl
      (omega arith) (omega arith)
