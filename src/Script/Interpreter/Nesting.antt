-- ===== src/Script/Interpreter/Nesting.antt =====
-- The bound of the condition stack on a tapscript, which has no size limit (interpreter.rs,
-- `ConditionStack::push` and `eval_script`).
use bitmigo.Prelude.{
  ℕ, zero, suc, ◌+◌, ◌^◌, ◌≤◌, ◌<◌, ◌≡◌, refl, ap, true, [], ◌∷◌, some, length, get_elem?,
  replicate, length-replicate, arith,
}
use bitmigo.Script.Error.{ok, panic}
use bitmigo.Script.Num.{Bytes, cast_to_bool}
use bitmigo.Script.Stack.{push, require, pop, top}
use bitmigo.Script.Opcode
use bitmigo.Script.Opcode.{is_push, is_disabled, is_conditional, counts_toward_op_limit}
use bitmigo.Script.Reader.{
  Op, Reader, reader_new, yield, size_field_len, data_len, next_op, read_op, read_push, after_read,
  take_op, push_data, opcode_index,
}
use bitmigo.Script.Conditions.{ConditionStack, conditions_new, conditions_push, all_true}
use bitmigo.Script.Machine.{is_tapscript, Env, Machine, ExecData}
use bitmigo.Script.Interpreter.{
  branch_value, branch, execute_control, execute_items, execute, count_op, dispatch, step,
  loop_round, eval_loop, start_machine, eval_script, has_tapscript,
}

-- `OP_0`, and `n` times `OP_IF`.
abbrev pub nested_ifs : ℕ → Bytes
nested_ifs n = Opcode.op_0 ∷ replicate n Opcode.op_if

get_elem?-replicate : (n i : ℕ) (b : ℕ) → i < n → get_elem? (replicate n b) i ≡ some b
get_elem?-replicate zero i b h = absurd (omega arith)
get_elem?-replicate (suc n) zero b h = refl
get_elem?-replicate (suc n) (suc i) b h = get_elem?-replicate n i b (omega arith)

abbrev if_op : ℕ → Op
if_op p = record { opcode = Opcode.op_if; payload = []; end = p }

next_if :
    (n p k : ℕ)
    → p < n
    → k + 1 < 2 ^ 32
    → next_op (record { script = nested_ifs n; position = suc p; ops_read = k })
      ≡ ok (
        yield (if_op (suc (suc p))),
        record { script = nested_ifs n; position = suc (suc p); ops_read = suc k },
      )
unfolding next_op read_op after_read take_op is_push
next_if n p k h hk =
    ground (arith, get_elem?-replicate n p Opcode.op_if h, length-replicate n Opcode.op_if)

next_first :
    (n : ℕ)
    → next_op (reader_new (nested_ifs n))
      ≡ ok (
        yield (record { opcode = Opcode.op_0; payload = []; end = 1 }),
        record { script = nested_ifs n; position = 1; ops_read = 1 },
      )
unfolding next_op reader_new read_op read_push after_read take_op is_push push_data size_field_len
    data_len
next_first n = ground (arith, length-replicate n Opcode.op_if)

-- A nest with a false branch, so that nothing is executed in it.
abbrev nested : ℕ → ConditionStack
nested depth = record { depth = depth; first_false = some 0 }

-- The machine in the nest.
abbrev deep : ExecData → ℕ → Machine
deep exec depth = record {
  stack = [];
  altstack = [];
  conditions = nested depth;
  op_count = 0;
  codesep_start = 0;
  exec = exec;
}

abbrev at_opcode : ℕ → ℕ → Reader
at_opcode n p = record { script = nested_ifs n; position = p; ops_read = p }

module _ (env : Env) (v : is_tapscript env.sig_version ≡ true) (exec : ExecData) where
  -- An `OP_IF` that is not executed: the nest grows, up to 10,001.
  step_nested :
      (p depth : ℕ) (r : Reader)
      → 0 < r.ops_read
      → depth ≤ 10000
      → step env (if_op p) r (deep exec depth) ≡ ok (deep exec (suc depth))
  unfolding step count_op dispatch execute execute_items execute_control branch conditions_push
      all_true opcode_index is_push is_disabled is_conditional
  step_nested p depth r h l = ground (arith, v)

  step_too_deep :
      (p depth : ℕ) (r : Reader)
      → 0 < r.ops_read
      → depth ≡ 10001
      → step env (if_op p) r (deep exec depth) ≡ panic
  unfolding step count_op dispatch execute execute_items execute_control branch conditions_push
      all_true opcode_index is_push is_disabled is_conditional
  step_too_deep p depth r h e = ground (arith, v, e)

  -- The machine after `OP_0`.
  abbrev pushed : Machine
  pushed = record {
    stack = [] ∷ [];
    altstack = [];
    conditions = conditions_new;
    op_count = 0;
    codesep_start = 0;
    exec = exec;
  }

  step_first_if :
      (p : ℕ) (r : Reader) → 0 < r.ops_read → step env (if_op p) r pushed ≡ ok (deep exec 1)
  unfolding step count_op dispatch execute execute_items execute_control branch branch_value
      conditions_push conditions_new all_true opcode_index is_push is_disabled is_conditional
      require top pop cast_to_bool
  step_first_if p r h = ground (arith, v)

  deep_loop :
      (k fuel n depth : ℕ)
      → depth + k ≡ 10001
      → 10002 ≤ n
      → n + 2 < 2 ^ 32
      → k < fuel
      → eval_loop fuel env (at_opcode n (suc depth)) (deep exec depth) ≡ panic
  unfolding eval_loop loop_round
  deep_loop k zero n depth e h l f = absurd (omega arith)
  deep_loop zero (suc fuel) n depth e h l f = ground (
    arith,
    next_if n depth (suc depth) (omega arith) (omega arith),
    step_too_deep (suc (suc depth)) depth (at_opcode n (suc (suc depth))) (omega arith)
        (omega arith),
  )
  deep_loop (suc k) (suc fuel) n depth e h l f = ground (
    arith,
    next_if n depth (suc depth) (omega arith) (omega arith),
    step_nested (suc (suc depth)) depth (at_opcode n (suc (suc depth))) (omega arith) (omega arith),
    deep_loop k fuel n (suc depth) (omega arith) h l (omega arith),
  )

  step_push_empty :
      (r : Reader)
      → step env
          (record { opcode = Opcode.op_0; payload = []; end = 1 })
          r
          (record pushed { stack = [] })
        ≡ ok pushed
  unfolding step count_op dispatch push conditions_new all_true is_push is_disabled
  step_push_empty r = ground (arith, v)

  whole_loop :
      (n fuel : ℕ)
      → 10002 ≤ n
      → n + 2 < 2 ^ 32
      → n ≤ fuel
      → eval_loop (suc (suc fuel)) env (reader_new (nested_ifs n)) (record pushed { stack = [] })
        ≡ panic
  unfolding eval_loop loop_round
  whole_loop n fuel h l f = ground (
    arith,
    next_first n,
    step_push_empty (at_opcode n 1),
    next_if n 0 1 (omega arith) (omega arith),
    step_first_if 2 (at_opcode n 2) (omega arith),
    deep_loop 10000 fuel n 1 (omega arith) h l (omega arith),
  )

-- A tapscript of `OP_0` and 10,002 or more `OP_IF`s, which breaks no limit of BIP342 and whose
-- stack holds one element at most, does not end in an error: the assertion on the depth of the
-- condition stack panics.
pub nested_ifs-panics :
    (env : Env) (exec : ExecData) (n : ℕ)
    → env.script ≡ nested_ifs n
    → is_tapscript env.sig_version ≡ true
    → has_tapscript exec ≡ true
    → 10002 ≤ n
    → n + 2 < 2 ^ 32
    → eval_script env [] exec ≡ panic
unfolding eval_script start_machine
nested_ifs-panics env exec n e v t h l = ground (
  arith,
  v,
  t,
  length-replicate n Opcode.op_if,
  ap (λ (s : Bytes). length s) e,
  ap (λ (s : Bytes). eval_loop (suc (length s)) env (reader_new s) (start_machine [] exec)) e,
  whole_loop env v (record exec { codesep_pos = 0xffff_ffff }) n n h l (omega arith),
)
