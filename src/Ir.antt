-- ===== src/Ir.antt =====
-- include/vectortick/ir: the SSA representation that queries are compiled to. A value id is a number,
-- a pointer to a basic block is the block's index in its function.
pub mod Ops
use vector_tick.Common.{
  ℕ, zero, suc, Bool, true, false, if◌then◌else◌, List, [], ◌∷◌, Option, none, some, get_elem?,
}
use vector_tick.Common.Int.{ℤ, to_u64}
use vector_tick.Ir.Ops.{Opcode}

-- enum class Type
pub data ValueType : Type 0 where
  void i1 i8 i16 i32 i64 u8 u16 u32 u64 vector : ValueType

-- Constant, by the function that makes it.
pub data Constant : Type 0 where
  i64_const : ℤ → Constant
  u64_const u32_const : ℕ → Constant
  boolean : Bool → Constant

abbrev pub type_of : Constant → ValueType
type_of (i64_const v) = ValueType.i64
type_of (u64_const v) = ValueType.u64
type_of (u32_const v) = ValueType.u32
type_of (boolean v) = ValueType.i1

abbrev pub as_u64 : Constant → ℕ
as_u64 (i64_const v) = to_u64 v
as_u64 (u64_const v) = v
as_u64 (u32_const v) = v
as_u64 (boolean v) = if v then 1 else 0

-- ConstOp::choose_opcode
abbrev pub choose_opcode : ValueType → Opcode
choose_opcode ValueType.i64 = Opcode.const_i64
choose_opcode ValueType.u32 = Opcode.const_u32
choose_opcode ValueType.i1 = Opcode.const_bool
choose_opcode _ = Opcode.const_u64

-- Instruction, by its class; the arguments are those of the class's constructor.
pub data Instruction : Type 0 where
  const_op : Constant → (result : ℕ) → Instruction
  load_column_op : (column_id row_idx result : ℕ) → ValueType → Instruction
  binary_op : Opcode → (left right result : ℕ) → ValueType → Instruction
  unary_op : Opcode → (operand result : ℕ) → ValueType → Instruction
  compare_op : Opcode → (left right result : ℕ) → Instruction
  select_op : (condition true_val false_val result : ℕ) → ValueType → Instruction
  aggregate_op : Opcode → (input result : ℕ) → ValueType → Instruction
  branch_op : (condition true_block false_block : ℕ) → Instruction
  jump_op : (target : ℕ) → Instruction
  return_op : (value : ℕ) → Instruction

abbrev pub opcode : Instruction → Opcode
opcode (const_op c r) = choose_opcode (type_of c)
opcode (load_column_op c i r t) = Opcode.load_column
opcode (binary_op o a b r t) = o
opcode (unary_op o a r t) = o
opcode (compare_op o a b r) = o
opcode (select_op c a b r t) = Opcode.select
opcode (aggregate_op o a r t) = o
opcode (branch_op c a b) = Opcode.branch
opcode (jump_op a) = Opcode.jump
opcode (return_op v) = Opcode.return

-- A return of value 0 has no operand.
abbrev pub operands : Instruction → List ℕ
operands (const_op c r) = []
operands (load_column_op c i r t) = i ∷ []
operands (binary_op o a b r t) = a ∷ b ∷ []
operands (unary_op o a r t) = a ∷ []
operands (compare_op o a b r) = a ∷ b ∷ []
operands (select_op c a b r t) = c ∷ a ∷ b ∷ []
operands (aggregate_op o a r t) = a ∷ []
operands (branch_op c a b) = c ∷ []
operands (jump_op a) = []
operands (return_op zero) = []
operands (return_op (suc v)) = suc v ∷ []

-- `operands_[idx]`; the classes give their opcodes the operands that are read.
abbrev pub or_zero : Option ℕ → ℕ
or_zero none = 0
or_zero (some v) = v

abbrev pub operand : Instruction → ℕ → ℕ
operand instr idx = or_zero (get_elem? (operands instr) idx)

-- The result of an instruction; 0 is none.
abbrev pub result : Instruction → ℕ
result (const_op c r) = r
result (load_column_op c i r t) = r
result (binary_op o a b r t) = r
result (unary_op o a r t) = r
result (compare_op o a b r) = r
result (select_op c a b r t) = r
result (aggregate_op o a r t) = r
result (branch_op c a b) = 0
result (jump_op a) = 0
result (return_op v) = 0

abbrev pub BasicBlock : Type 0
BasicBlock = List Instruction

-- The entry block is the first.
pub record Function : Type 0 where
  pub parameters : List ℕ
  pub blocks : List BasicBlock
