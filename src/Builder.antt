-- ===== src/Builder.antt =====
-- src/ir/builder.cpp: class Builder. The builder is the next value id, the parameters of its function
-- and the block that it appends to; each method returns its value id and the builder.
pub mod Columns
pub mod Query
pub mod Types
pub mod Operators
pub mod Correct
pub mod Emit
use vector_tick.Common.{
  ℕ, zero, suc, ◌+◌, ◌%◌, ◌^◌, Bool, true, false, ◌||◌, Option, none, some, List, [], ◌∷◌, ◌++◌,
  map, if◌then◌else◌,
}
use vector_tick.Query.{
  Name, codes, to_lower, same_name, Expression, missing, literal, column_ref, binary_op, unary_op,
  function_call, Expressions, no_args, arg,
}
use vector_tick.Query.Tokens.{TokenType}
use vector_tick.Ir.{ValueType, Function, or_zero}
use vector_tick.Builder.Emit.*
use vector_tick.Builder.Columns.{resolve_column_info, column_id_or_zero, column_type_or_u64}

-- Builder::infer_type
unfoldable pub infer_type : Expression → ValueType
infer_type missing = ValueType.u64
infer_type (literal v) = ValueType.u64
infer_type (column_ref name) = column_type_or_u64 (resolve_column_info name)
infer_type (binary_op op l r) =
    let lt = infer_type l in
    let rt = infer_type r in
    if is_test op
    then ValueType.i1
    else (if is_i64 lt || is_i64 rt then ValueType.i64 else ValueType.u64)
infer_type (unary_op op e) =
    let t = infer_type e in
    if is_bang op then ValueType.i1 else (if is_minus op then ValueType.i64 else t)
infer_type (function_call name args) = ValueType.u64

-- The inner switches of `lower_expression`; 0 where no case names the operator.
unfoldable pub lower_binary : TokenType → ℕ → ℕ → ValueType → Builder → ℕ × Builder
lower_binary TokenType.plus lhs rhs type b = create_add lhs rhs type b
lower_binary TokenType.minus lhs rhs type b = create_sub lhs rhs type b
lower_binary TokenType.star lhs rhs type b = create_mul lhs rhs type b
lower_binary TokenType.slash lhs rhs type b = create_div lhs rhs type b
lower_binary TokenType.percent lhs rhs type b = create_mod lhs rhs type b
lower_binary TokenType.equal lhs rhs type b = create_eq lhs rhs type b
lower_binary TokenType.not_equal lhs rhs type b = create_ne lhs rhs type b
lower_binary TokenType.less lhs rhs type b = create_lt lhs rhs type b
lower_binary TokenType.less_equal lhs rhs type b = create_le lhs rhs type b
lower_binary TokenType.greater lhs rhs type b = create_gt lhs rhs type b
lower_binary TokenType.greater_equal lhs rhs type b = create_ge lhs rhs type b
lower_binary TokenType.and lhs rhs type b = create_and lhs rhs b
lower_binary TokenType.or lhs rhs type b = create_or lhs rhs b
lower_binary TokenType.amp lhs rhs type b = create_bitand lhs rhs b
lower_binary TokenType.pipe lhs rhs type b = create_bitor lhs rhs b
lower_binary TokenType.caret lhs rhs type b = create_bitxor lhs rhs b
lower_binary _ lhs rhs type b = (0, b)

unfoldable pub lower_unary : TokenType → ℕ → Builder → ℕ × Builder
lower_unary TokenType.minus operand b = create_neg operand ValueType.i64 b
lower_unary TokenType.bang operand b = create_not operand b
lower_unary _ operand b = (0, b)

-- The aggregate of one argument that a lower-case name asks for.
abbrev pub lower_aggregate : Name → ℕ → ValueType → Builder → ℕ × Builder
lower_aggregate fname a type b =
    if same_name fname (codes "sum")
    then create_sum a type b
    else (if same_name fname (codes "min")
        then create_min a type b
        else (if same_name fname (codes "max") then create_max a type b else (0, b)))

abbrev pub operand_type : ValueType → ValueType → ValueType
operand_type lt rt = if is_i64 lt || is_i64 rt then ValueType.i64 else ValueType.u64

unfoldable pub lower_expression : Expression → Builder → ℕ × Builder
unfolding lower_binary lower_unary infer_type
lower_expression missing b = (0, b)
lower_expression (literal v) b = create_const_u64 v b
lower_expression (column_ref name) b =
    let info = resolve_column_info name in
    create_load_column (column_id_or_zero info) (row_index b) (column_type_or_u64 info) b
lower_expression (binary_op op l r) b =
    let (lhs, b₁) = lower_expression l b in
    let (rhs, b₂) = lower_expression r b₁ in
    lower_binary op lhs rhs (operand_type (infer_type l) (infer_type r)) b₂
lower_expression (unary_op op e) b =
    let (operand, b₁) = lower_expression e b in lower_unary op operand b₁
lower_expression (function_call name no_args) b =
    if same_name (map to_lower name) (codes "count") then create_count (row_index b) b else (0, b)
lower_expression (function_call name (arg e rest)) b =
    let fname = map to_lower name in
    let (a, b₁) = lower_expression e b in
    if same_name fname (codes "count")
    then create_count (row_index b) b
    else lower_aggregate fname a (infer_type e) b₁
