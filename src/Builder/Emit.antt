-- ===== src/Builder/Emit.antt =====
-- src/ir/builder.cpp: the methods of Builder that append one instruction.
use vector_tick.Common.{
  ℕ, ◌+◌, ◌%◌, ◌^◌, Bool, true, false, List, [], ◌∷◌, ◌++◌, if◌then◌else◌, get_elem?,
}
use vector_tick.Common.Int.{ℤ}
use vector_tick.Query.Tokens.{TokenType}
use vector_tick.Ir.{
  ValueType, Instruction, const_op, load_column_op, binary_op, unary_op, compare_op, select_op,
  aggregate_op, branch_op, jump_op, return_op, Constant, i64_const, u64_const, u32_const, boolean,
  or_zero,
}
use vector_tick.Ir.Ops.{Opcode}

pub record Builder : Type 0 where
  pub next_value_id : ℕ
  pub parameters : List ℕ
  pub block : List Instruction

-- Function::create_value, whose ids are u32.
abbrev pub create_value : Builder → ℕ × Builder
create_value b = (b.next_value_id, record b { next_value_id = (b.next_value_id + 1) % 2 ^ 32 })

-- BasicBlock::append on the current block
abbrev pub append : Builder → Instruction → Builder
append b instr = record b { block = b.block ++ instr ∷ [] }

-- Create a value, append the instruction that gives it, return it.
abbrev pub create : (ℕ → Instruction) → Builder → ℕ × Builder
create instr b = let (result, b') = create_value b in (result, append b' (instr result))

-- `function_->parameters()[0]`
abbrev pub row_index : Builder → ℕ
row_index b = or_zero (get_elem? b.parameters 0)

abbrev pub is_i64 : ValueType → Bool
is_i64 ValueType.i64 = true
is_i64 _ = false

abbrev pub is_test : TokenType → Bool
is_test TokenType.equal = true
is_test TokenType.not_equal = true
is_test TokenType.less = true
is_test TokenType.less_equal = true
is_test TokenType.greater = true
is_test TokenType.greater_equal = true
is_test TokenType.and = true
is_test TokenType.or = true
is_test _ = false

abbrev pub is_bang : TokenType → Bool
is_bang TokenType.bang = true
is_bang _ = false

abbrev pub is_minus : TokenType → Bool
is_minus TokenType.minus = true
is_minus _ = false

abbrev pub create_const : Constant → Builder → ℕ × Builder
create_const c b = create (λ result. const_op c result) b

abbrev pub create_const_i64 : ℤ → Builder → ℕ × Builder
create_const_i64 value b = create_const (i64_const value) b

abbrev pub create_const_u64 : ℕ → Builder → ℕ × Builder
create_const_u64 value b = create_const (u64_const value) b

abbrev pub create_const_u32 : ℕ → Builder → ℕ × Builder
create_const_u32 value b = create_const (u32_const value) b

abbrev pub create_const_bool : Bool → Builder → ℕ × Builder
create_const_bool value b = create_const (boolean value) b

abbrev pub create_add : ℕ → ℕ → ValueType → Builder → ℕ × Builder
create_add lhs rhs type b =
    create
      (λ result.
        binary_op (if is_i64 type then Opcode.add_i64 else Opcode.add_u64) lhs rhs result type)
      b

abbrev pub create_sub : ℕ → ℕ → ValueType → Builder → ℕ × Builder
create_sub lhs rhs type b =
    create
      (λ result.
        binary_op (if is_i64 type then Opcode.sub_i64 else Opcode.sub_u64) lhs rhs result type)
      b

abbrev pub create_mul : ℕ → ℕ → ValueType → Builder → ℕ × Builder
create_mul lhs rhs type b =
    create
      (λ result.
        binary_op (if is_i64 type then Opcode.mul_i64 else Opcode.mul_u64) lhs rhs result type)
      b

abbrev pub create_div : ℕ → ℕ → ValueType → Builder → ℕ × Builder
create_div lhs rhs type b =
    create
      (λ result.
        binary_op (if is_i64 type then Opcode.div_i64 else Opcode.div_u64) lhs rhs result type)
      b

abbrev pub create_mod : ℕ → ℕ → ValueType → Builder → ℕ × Builder
create_mod lhs rhs type b =
    create
      (λ result.
        binary_op (if is_i64 type then Opcode.mod_i64 else Opcode.mod_u64) lhs rhs result type)
      b

abbrev pub create_neg : ℕ → ValueType → Builder → ℕ × Builder
create_neg operand type b = create (λ result. unary_op Opcode.neg_i64 operand result type) b

abbrev pub create_eq : ℕ → ℕ → ValueType → Builder → ℕ × Builder
create_eq lhs rhs type b =
    create
      (λ result. compare_op (if is_i64 type then Opcode.eq_i64 else Opcode.eq_u64) lhs rhs result) b

abbrev pub create_ne : ℕ → ℕ → ValueType → Builder → ℕ × Builder
create_ne lhs rhs type b =
    create
      (λ result. compare_op (if is_i64 type then Opcode.ne_i64 else Opcode.ne_u64) lhs rhs result) b

abbrev pub create_lt : ℕ → ℕ → ValueType → Builder → ℕ × Builder
create_lt lhs rhs type b =
    create
      (λ result. compare_op (if is_i64 type then Opcode.lt_i64 else Opcode.lt_u64) lhs rhs result) b

abbrev pub create_le : ℕ → ℕ → ValueType → Builder → ℕ × Builder
create_le lhs rhs type b =
    create
      (λ result. compare_op (if is_i64 type then Opcode.le_i64 else Opcode.le_u64) lhs rhs result) b

abbrev pub create_gt : ℕ → ℕ → ValueType → Builder → ℕ × Builder
create_gt lhs rhs type b =
    create
      (λ result. compare_op (if is_i64 type then Opcode.gt_i64 else Opcode.gt_u64) lhs rhs result) b

abbrev pub create_ge : ℕ → ℕ → ValueType → Builder → ℕ × Builder
create_ge lhs rhs type b =
    create
      (λ result. compare_op (if is_i64 type then Opcode.ge_i64 else Opcode.ge_u64) lhs rhs result) b

abbrev pub create_and : ℕ → ℕ → Builder → ℕ × Builder
create_and lhs rhs b = create (λ result. binary_op Opcode.and lhs rhs result ValueType.i1) b

abbrev pub create_or : ℕ → ℕ → Builder → ℕ × Builder
create_or lhs rhs b = create (λ result. binary_op Opcode.or lhs rhs result ValueType.i1) b

abbrev pub create_bitand : ℕ → ℕ → Builder → ℕ × Builder
create_bitand lhs rhs b = create (λ result. binary_op Opcode.bit_and lhs rhs result ValueType.u64) b

abbrev pub create_bitor : ℕ → ℕ → Builder → ℕ × Builder
create_bitor lhs rhs b = create (λ result. binary_op Opcode.bit_or lhs rhs result ValueType.u64) b

abbrev pub create_bitxor : ℕ → ℕ → Builder → ℕ × Builder
create_bitxor lhs rhs b = create (λ result. binary_op Opcode.bit_xor lhs rhs result ValueType.u64) b

abbrev pub create_not : ℕ → Builder → ℕ × Builder
create_not operand b = create (λ result. unary_op Opcode.not operand result ValueType.i1) b

abbrev pub create_bitnot : ℕ → Builder → ℕ × Builder
create_bitnot operand b = create (λ result. unary_op Opcode.bit_not operand result ValueType.u64) b

abbrev pub create_select : ℕ → ℕ → ℕ → ValueType → Builder → ℕ × Builder
create_select cond true_val false_val type b =
    create (λ result. select_op cond true_val false_val result type) b

abbrev pub create_load_column : ℕ → ℕ → ValueType → Builder → ℕ × Builder
create_load_column column_id row_idx type b =
    create (λ result. load_column_op column_id row_idx result type) b

abbrev pub create_count : ℕ → Builder → ℕ × Builder
create_count input b = create (λ result. aggregate_op Opcode.count input result ValueType.u64) b

abbrev pub create_sum : ℕ → ValueType → Builder → ℕ × Builder
create_sum input type b =
    create
      (λ result.
        aggregate_op (if is_i64 type then Opcode.sum_i64 else Opcode.sum_u64) input result type)
      b

abbrev pub create_min : ℕ → ValueType → Builder → ℕ × Builder
create_min input type b =
    create
      (λ result.
        aggregate_op (if is_i64 type then Opcode.min_i64 else Opcode.min_u64) input result type)
      b

abbrev pub create_max : ℕ → ValueType → Builder → ℕ × Builder
create_max input type b =
    create
      (λ result.
        aggregate_op (if is_i64 type then Opcode.max_i64 else Opcode.max_u64) input result type)
      b

abbrev pub create_return : ℕ → Builder → Builder
create_return value b = append b (return_op value)

abbrev pub create_jump : ℕ → Builder → Builder
create_jump target b = append b (jump_op target)

abbrev pub create_branch : ℕ → ℕ → ℕ → Builder → Builder
create_branch cond true_block false_block b = append b (branch_op cond true_block false_block)
