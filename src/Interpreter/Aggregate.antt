-- ===== src/Interpreter/Aggregate.antt =====
-- src/execution/reference_interpreter.cpp: ReferenceInterpreter::execute_aggregate.
use vector_tick.Common.{
  ℕ, ◌+◌, ◌%◌, ◌^◌, Bool, ◌&&◌, Option, none, some, List, [], ◌∷◌, get_elem?, ◌==◌, ltb,
  if◌then◌else◌, not, min, max, length,
}
use vector_tick.Common.Int.{ℤ, pos, ltb_ℤ, leb_ℤ, i64_min, i64_max, to_i64, to_u64}
use vector_tick.CheckedMath.{◌+ℤ◌, u64_max}
use vector_tick.Status.{invalid_argument}
use vector_tick.Event.{CanonicalEvent}
use vector_tick.Ir.{Instruction, opcode, operand, operands, BasicBlock, Function}
use vector_tick.Ir.Ops.{Opcode, is_aggregate}
use vector_tick.Interpreter.{
  Interpreter, Values, Outcome, execute, execute_instruction, parameter_values,
}
use vector_tick.Interpreter.Arithmetic.{Run, done, failed, undefined, ◌>>=◌}

abbrev first_of {ℓ} : {A : Type ℓ} → Option A → Option A → Option A
first_of none other = other
first_of (some a) other = some a

-- The first aggregate of a block, and of a function's blocks.
abbrev pub aggregate_of_block : BasicBlock → Option Instruction
aggregate_of_block [] = none
aggregate_of_block (instr ∷ rest) =
    if is_aggregate (opcode instr) then some instr else aggregate_of_block rest

abbrev pub aggregate_of : List BasicBlock → Option Instruction
aggregate_of [] = none
aggregate_of (block ∷ blocks) = first_of (aggregate_of_block block) (aggregate_of blocks)

-- The variables of `execute_aggregate`.
pub record Accumulator : Type 0 where
  pub count : ℕ
  pub sum_u64 : ℕ
  pub sum_i64 : ℤ
  pub min_u64 : ℕ
  pub max_u64 : ℕ
  pub min_i64 : ℤ
  pub max_i64 : ℤ

abbrev pub initial : Accumulator
initial = record {
  count = 0;
  sum_u64 = 0;
  sum_i64 = pos 0;
  min_u64 = u64_max;
  max_u64 = 0;
  min_i64 = i64_max;
  max_i64 = i64_min;
}

-- std::min and std::max of i64
abbrev pub min_ℤ : ℤ → ℤ → ℤ
min_ℤ a b = if ltb_ℤ b a then b else a

abbrev pub max_ℤ : ℤ → ℤ → ℤ
max_ℤ a b = if ltb_ℤ a b then b else a

-- A signed addition is undefined where it overflows.
abbrev pub fits_i64 : ℤ → Bool
fits_i64 z = leb_ℤ i64_min z && leb_ℤ z i64_max

-- The switch on the opcode for a row.
abbrev pub accumulate : Opcode → ℕ → Accumulator → Run Accumulator
accumulate Opcode.sum_u64 input_val a =
    done (record a { sum_u64 = (a.sum_u64 + input_val) % 2 ^ 64 })
accumulate Opcode.sum_i64 input_val a =
    let sum = a.sum_i64 +ℤ to_i64 input_val in
    if fits_i64 sum then done (record a { sum_i64 = sum }) else undefined
accumulate Opcode.min_u64 input_val a = done (record a { min_u64 = min a.min_u64 input_val })
accumulate Opcode.max_u64 input_val a = done (record a { max_u64 = max a.max_u64 input_val })
accumulate Opcode.min_i64 input_val a =
    done (record a { min_i64 = min_ℤ a.min_i64 (to_i64 input_val) })
accumulate Opcode.max_i64 input_val a =
    done (record a { max_i64 = max_ℤ a.max_i64 (to_i64 input_val) })
accumulate _ input_val a = done a

-- The switch on the opcode at the end.
abbrev pub aggregate_value : Opcode → Accumulator → ℕ
aggregate_value Opcode.count a = a.count
aggregate_value Opcode.sum_u64 a = a.sum_u64
aggregate_value Opcode.sum_i64 a = to_u64 a.sum_i64
aggregate_value Opcode.min_u64 a = if a.count == 0 then 0 else a.min_u64
aggregate_value Opcode.max_u64 a = a.max_u64
aggregate_value Opcode.min_i64 a = if a.count == 0 then 0 else to_u64 a.min_i64
aggregate_value Opcode.max_i64 a = if a.count == 0 then 0 else to_u64 a.max_i64
aggregate_value _ a = 0

abbrev pub known_or_zero : Option ℕ → ℕ
known_or_zero none = 0
known_or_zero (some v) = v

-- The aggregate's input, where it has an operand with a value.
abbrev pub input_of : Instruction → Values → ℕ
input_of instr values =
    if ltb 0 (length (operands instr)) then known_or_zero (values (operand instr 0)) else 0

-- The loop over the entry block: it ends at the aggregate, which is the block's first aggregate where
-- the block has one. It gives `input_val`; the values that it leaves are cleared before any are read.
unfoldable pub run_row : BasicBlock → CanonicalEvent → Values → Run ℕ
unfolding execute_instruction
run_row [] event values = done 0
run_row (instr ∷ rest) event values =
    if is_aggregate (opcode instr)
    then done (input_of instr values)
    else (execute_instruction instr event values >>= run_row rest event)

-- One row; `++count` wraps.
abbrev pub add_row : Opcode → ℕ → Accumulator → Run Accumulator
add_row op input_val a = accumulate op input_val (record a { count = (a.count + 1) % 2 ^ 64 })

-- The loop over the events.
unfoldable pub run_rows :
    Opcode → BasicBlock → List ℕ → List CanonicalEvent → Accumulator → Run Accumulator
unfolding run_row
run_rows op block parameters [] a = done a
run_rows op block parameters (event ∷ events) a = do
  input_val ← run_row block event (parameter_values parameters)
  next ← add_row op input_val a
  run_rows op block parameters events next

-- The loop that counts the rows a function matches.
abbrev pub count_next : (Interpreter → ℕ → Outcome) → ℕ → Outcome → Outcome
count_next loop count (s, none) = (s, none)
count_next loop count (s, some (done v)) =
    loop s (if not (v == 0) then (count + 1) % 2 ^ 64 else count)
count_next loop count (s, some (failed e)) = (s, some (failed e))
count_next loop count (s, some undefined) = (s, some undefined)

unfoldable pub count_rows : ℕ → Function → List CanonicalEvent → Interpreter → ℕ → Outcome
unfolding execute
count_rows fuel function [] s count = (s, some (done count))
count_rows fuel function (event ∷ events) s count =
    count_next (count_rows fuel function events) count (execute fuel s (some function) (some event))

abbrev or_empty : Option BasicBlock → BasicBlock
or_empty none = []
or_empty (some block) = block

-- The result of the rows.
abbrev pub aggregate_outcome : Opcode → Interpreter → Run Accumulator → Outcome
aggregate_outcome op s (done a) = (s, some (done (aggregate_value op a)))
aggregate_outcome op s (failed e) = (s, some (failed e))
aggregate_outcome op s undefined = (s, some undefined)

abbrev pub aggregate_with :
    ℕ → Interpreter → Function → List CanonicalEvent → Option Instruction → Outcome
aggregate_with fuel s function events none = count_rows fuel function events s 0
aggregate_with fuel s function events (some instr) = aggregate_outcome (opcode instr) s (
    run_rows (opcode instr) (or_empty (get_elem? function.blocks 0)) function.parameters events
      initial)

-- `execute_aggregate`; a null function is `none`.
unfoldable pub execute_aggregate : ℕ → Interpreter → Option Function → List CanonicalEvent → Outcome
unfolding count_rows run_rows
execute_aggregate fuel s none events = (s, some (failed invalid_argument))
execute_aggregate fuel s (some function) events =
    aggregate_with fuel s function events (aggregate_of function.blocks)
