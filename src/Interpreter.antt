-- ===== src/Interpreter.antt =====
-- src/execution/reference_interpreter.cpp and include/vectortick/execution/reference_interpreter.hpp:
-- class ReferenceInterpreter. `values_` is a function from value ids; each method returns the
-- interpreter beside what it returns.
pub mod Arithmetic
pub mod Aggregate
pub mod Termination
use vector_tick.Common.{
  ℕ, zero, suc, ◌+◌, ◌%◌, ◌^◌, Bool, true, false, Option, none, some, List, [], ◌∷◌, get_elem?,
  ◌==◌, ltb, if◌then◌else◌, not, min, max, length,
}
use vector_tick.Common.Int.{ℤ, pos, ltb_ℤ, i64_min, i64_max, to_i64, to_u64}
use vector_tick.Status.{StatusCode, internal_error, invalid_argument, not_implemented}
use vector_tick.Event.{CanonicalEvent}
use vector_tick.Ir.{
  Instruction, const_op, branch_op, jump_op, return_op, load_column_op, as_u64, or_zero, opcode,
  operand, operands, result, BasicBlock, Function,
}
use vector_tick.Ir.Ops.{Opcode, is_aggregate}
use vector_tick.Interpreter.Arithmetic.{Run, done, failed, undefined, ◌>>=◌, Form, form}

abbrev pub Values : Type 0
Values = ℕ → Option ℕ

-- `values_[id] = v`
abbrev pub set : Values → ℕ → ℕ → Values
set values id v i = if i == id then some v else values i

-- `get_val`
abbrev known_value : Option ℕ → Run ℕ
known_value none = failed internal_error
known_value (some v) = done v

abbrev pub get_val : Values → ℕ → Run ℕ
get_val values id = known_value (values id)

-- The cases of `load_column_value`, in the order of the column ids.
abbrev pub columns : CanonicalEvent → List ℕ
columns event =
    event.exchange_ts_ns
    ∷ event.receive_ts_ns
    ∷ event.sequence
    ∷ event.instrument_id
    ∷ event.event_type
    ∷ event.side
    ∷ event.flags
    ∷ to_u64 event.price_ticks
    ∷ event.quantity
    ∷ event.venue_id
    ∷ event.source_id
    ∷ event.trade_or_order_id
    ∷ []

unfoldable pub load_column_value : ℕ → CanonicalEvent → ℕ
load_column_value column_id event = or_zero (get_elem? (columns event) column_id)

-- The casts to ConstOp and LoadColumnOp, which only those classes' opcodes reach.
abbrev pub constant_of : Instruction → ℕ
constant_of (const_op c r) = as_u64 c
constant_of _ = 0

abbrev pub column_of : Instruction → ℕ
column_of (load_column_op c i r t) = c
column_of _ = 0

abbrev pub execute_form : Form → Instruction → CanonicalEvent → Values → Run Values
execute_form Form.silent instr event values = done values
execute_form Form.constant instr event values = done (set values (result instr) (constant_of instr))
execute_form Form.column instr event values =
    done (set values (result instr) (load_column_value (column_of instr) event))
execute_form (Form.unary f) instr event values = do
  val ← get_val values (operand instr 0)
  v ← f val
  done (set values (result instr) v)
execute_form (Form.binary f) instr event values = do
  lhs ← get_val values (operand instr 0)
  rhs ← get_val values (operand instr 1)
  v ← f lhs rhs
  done (set values (result instr) v)
execute_form Form.choice instr event values = do
  cond ← get_val values (operand instr 0)
  true_val ← get_val values (operand instr 1)
  false_val ← get_val values (operand instr 2)
  done (set values (result instr) (if not (cond == 0) then true_val else false_val))
execute_form Form.missing instr event values = failed not_implemented

unfoldable pub execute_instruction : Instruction → CanonicalEvent → Values → Run Values
unfolding form load_column_value
execute_instruction instr event values = execute_form (form (opcode instr)) instr event values

-- What `execute` does at an opcode before it calls `execute_instruction`.
pub data Control : Type 0 where
  returning jumping branching plain : Control

abbrev pub control : Opcode → Control
control Opcode.return = returning
control Opcode.jump = jumping
control Opcode.branch = branching
control _ = plain

-- `target()`, `true_block()` and `false_block()`, behind casts that only these classes' opcodes reach.
abbrev target_of : Instruction → ℕ
target_of (jump_op target) = target
target_of _ = 0

abbrev true_block_of : Instruction → ℕ
true_block_of (branch_op condition true_block false_block) = true_block
true_block_of _ = 0

abbrev false_block_of : Instruction → ℕ
false_block_of (branch_op condition true_block false_block) = false_block
false_block_of _ = 0

pub record Interpreter : Type 0 where
  pub values : Values
  pub instructions_executed : ℕ

-- `++instructions_executed_`
abbrev pub count_instruction : Interpreter → Interpreter
count_instruction s = record s { instructions_executed = (s.instructions_executed + 1) % 2 ^ 64 }

unfoldable pub reset_stats : Interpreter → Interpreter
reset_stats s = record s { instructions_executed = 0 }

-- How the loop over a block ends: by a return, at another block, or at the block's end.
pub data Exit : Type 0 where
  returned : Run ℕ → Exit
  goto : (block : ℕ) → Exit
  left : Exit

abbrev pub return_value : Instruction → Values → Run ℕ
return_value instr values =
    if ltb 0 (length (operands instr)) then get_val values (operand instr 0) else done 0

abbrev pub branch_exit : Run ℕ → Instruction → Exit
branch_exit (done v) instr =
    goto (if not (v == 0) then true_block_of instr else false_block_of instr)
branch_exit (failed s) instr = returned (failed s)
branch_exit undefined instr = returned undefined

-- `execute_instruction` in the loop; `rest` is the loop from the next instruction on.
abbrev pub continue :
    Run Values → (Interpreter → Interpreter × Exit) → Interpreter → Interpreter × Exit
continue (done values) rest s = rest (count_instruction (record s { values = values }))
continue (failed e) rest s = (s, returned (failed e))
continue undefined rest s = (s, returned undefined)

abbrev pub run_instruction :
    Control
    → Instruction
    → CanonicalEvent
    → (Interpreter → Interpreter × Exit)
    → Interpreter
    → Interpreter × Exit
run_instruction returning instr event rest s =
    (count_instruction s, returned (return_value instr s.values))
run_instruction jumping instr event rest s = (count_instruction s, goto (target_of instr))
run_instruction branching instr event rest s =
    (count_instruction s, branch_exit (get_val s.values (operand instr 0)) instr)
run_instruction plain instr event rest s =
    continue (execute_instruction instr event s.values) rest s

-- The loop over the instructions of a block.
unfoldable pub run_block : BasicBlock → CanonicalEvent → Interpreter → Interpreter × Exit
unfolding execute_instruction
run_block [] event s = (s, left)
run_block (instr ∷ rest) event s =
    run_instruction (control (opcode instr)) instr event (run_block rest event) s

abbrev pub Outcome : Type 0
Outcome = Interpreter × Option (Run ℕ)

-- The round after a block: the function did not return where the block has no terminator.
abbrev pub next_block : (Interpreter → ℕ → Outcome) → Interpreter × Exit → Outcome
next_block loop (s, returned r) = (s, some r)
next_block loop (s, goto block) = loop s block
next_block loop (s, left) = (s, some (failed internal_error))

-- A round of the `while (current)`; no block is a null pointer.
abbrev pub enter_block : (BasicBlock → Outcome) → Interpreter → Option BasicBlock → Outcome
enter_block run s none = (s, some (failed internal_error))
enter_block run s (some block) = run block

-- The `while (current)` of `execute`, on fuel: each round takes a block.
unfoldable pub execute_loop : ℕ → Function → CanonicalEvent → Interpreter → ℕ → Outcome
unfolding run_block
execute_loop zero function event s current = (s, none)
execute_loop (suc fuel) function event s current =
    enter_block (λ block. next_block (execute_loop fuel function event) (run_block block event s)) s
      (get_elem? function.blocks current)

-- The parameters of a function are 0.
abbrev pub parameter_values : List ℕ → Values
parameter_values [] = λ id. none
parameter_values (p ∷ parameters) = set (parameter_values parameters) p 0

-- `execute`; a null pointer is `none`.
unfoldable pub execute : ℕ → Interpreter → Option Function → Option CanonicalEvent → Outcome
unfolding execute_loop
execute fuel s (some function) (some event) =
    execute_loop fuel function event (record s { values = parameter_values function.parameters }) 0
execute fuel s _ _ = (s, some (failed invalid_argument))

abbrev pub is_match : Run ℕ → Run Bool
is_match (done v) = done (not (v == 0))
is_match (failed e) = failed e
is_match undefined = undefined

abbrev pub map_option {ℓ κ} : {A : Type ℓ} {B : Type κ} → (A → B) → Option A → Option B
map_option f none = none
map_option f (some a) = some (f a)

unfoldable pub execute_filter :
    ℕ → Interpreter → Option Function → Option CanonicalEvent → Interpreter × Option (Run Bool)
unfolding execute
execute_filter fuel s function event =
    let (s', r) = execute fuel s function event in (s', map_option is_match r)
