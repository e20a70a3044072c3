-- ===== src/Builder/Query.antt =====
-- src/ir/builder.cpp: Builder::build_from_query.
pub mod Correct
pub mod Aggregate
pub mod Reference
pub mod Signed
pub mod Counting
use vector_tick.Common.{ℕ, Option, none, some, List, [], ◌∷◌, map}
use vector_tick.Query.{
  Name, to_lower, codes, same_name, Expression, missing, literal, column_ref, binary_op, unary_op,
  function_call, Expressions, SelectItem, QueryStmt,
}
use vector_tick.Ir.{Function}
use vector_tick.Builder.{lower_expression}
use vector_tick.Builder.Emit.{Builder, create_value, create_return, create_const_u64}

-- The function call that an expression is.
abbrev pub call_of : Expression → Option (Name × Expressions)
call_of (function_call name args) = some (name, args)
call_of _ = none

abbrev or_else {ℓ} : {A : Type ℓ} → Option A → Option A → Option A
or_else none other = other
or_else (some a) other = some a

-- The loop over the projections for the first call.
abbrev call_in : List SelectItem → Option (Name × Expressions)
call_in [] = none
call_in (proj ∷ projections) = or_else (call_of proj.expr) (call_in projections)

abbrev pub if_missing {ℓ} : {A : Type ℓ} → Expression → A → A → A
if_missing missing a b = a
if_missing _ a b = b

-- `agg_call`: the first aggregation, or the first projection that is a call where there is none.
abbrev pub agg_call : QueryStmt → Option (Name × Expressions)
agg_call stmt = elim stmt.aggregations [
  | [] ↦ call_in stmt.projections
  | first ∷ others ↦ if_missing first.1 (call_in stmt.projections) (call_of first.1)
]

-- The new function: an empty entry block and the parameter of the row index.
abbrev pub new_function : Builder
new_function =
    let (row_idx, b) = create_value (record { next_value_id = 1; parameters = []; block = [] }) in
    record b { parameters = row_idx ∷ [] }

abbrev pub returning : ℕ × Builder → Builder
returning (value, b) = create_return value b

abbrev pub first_projection : List SelectItem → Expression
first_projection [] = missing
first_projection (proj ∷ projections) = proj.expr

-- A row's value: the WHERE clause, the first projection, or 1.
abbrev pub lower_row : QueryStmt → Builder → ℕ × Builder
lower_row stmt b =
    if_missing stmt.where_expr
      (if_missing (first_projection stmt.projections) (create_const_u64 1 b)
        (lower_expression (first_projection stmt.projections) b))
      (lower_expression stmt.where_expr b)

abbrev pub lower_query : QueryStmt → Option (Name × Expressions) → Builder → ℕ × Builder
lower_query stmt (some (name, args)) b = lower_expression (function_call name args) b
lower_query stmt none b = lower_row stmt b

abbrev pub function_of : Builder → Function
function_of b = record { parameters = b.parameters; blocks = b.block ∷ [] }

-- A null statement is `none`.
unfoldable pub build_from_query : Option QueryStmt → Option Function
unfolding lower_expression
build_from_query none = none
build_from_query (some stmt) =
    some (function_of (returning (lower_query stmt (agg_call stmt) new_function)))
