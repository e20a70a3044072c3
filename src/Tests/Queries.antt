-- ===== src/Tests/Queries.antt =====
-- The compilation and the execution of queries at concrete inputs.
use vector_tick.Common.{
  not, ◌==◌, length, ◌^◌, ◌+◌, ◌<◌, ◌%◌, [], ◌∷◌, none, some, ◌≡◌, refl, arith, false, map,
}
use vector_tick.Common.Int.{pos, negsuc, to_u64}
use vector_tick.Event.{CanonicalEvent}
use vector_tick.Query.{
  codes, to_lower, to_upper, same_name, Expression, missing, literal, column_ref, binary_op,
  unary_op, function_call, no_args, arg, QueryStmt,
}
use vector_tick.Query.Tokens.{TokenType}
use vector_tick.Query.Meaning.{Operator, UnaryOperator, evaluate}
use vector_tick.Query.Words.{IsLowerable, IsWords}
use vector_tick.Ir.{Function, const_op, u64_const, branch_op, return_op}
use vector_tick.Interpreter.Termination.{AreForward, Returns, execute-Returns}
use vector_tick.Ir.Ops.{Opcode}
use vector_tick.Interpreter.{Interpreter, execute, execute_filter}
use vector_tick.Interpreter.Arithmetic.{done, ◌>>=◌, checked_mul_i64, ◌*ℤ◌}
use vector_tick.Interpreter.Arithmetic.Exact.{checked_mul_i64-IsExact}
use vector_tick.CheckedMath.Exact.{IsExact}
use vector_tick.Interpreter.Aggregate.{execute_aggregate}
use vector_tick.Builder.{infer_type}
use vector_tick.Builder.Columns.{resolve_column_info}
use vector_tick.Builder.Correct.{nodes}
use vector_tick.Builder.Query.{build_from_query}
use vector_tick.Builder.Query.Correct.{
  row_expression, execute-build_from_query, execute_filter-build_from_query,
}
use vector_tick.Builder.Query.Signed.{Signed, signed_reference}
use vector_tick.Builder.Query.Signed.Correct.{execute_aggregate-signed_reference}
use vector_tick.Query.Meaning.{column, is_signed}
use vector_tick.Common.{true}
use vector_tick.Builder.Query.Aggregate.Choice.{aggregate_opcode}
use vector_tick.Builder.Query.Reference.{
  Unsigned, reference, values_of, execute_aggregate-reference,
}
use vector_tick.Builder.Query.Counting.{matches, execute_aggregate-counts}

abbrev idle : Interpreter
idle = record { values = λ id. none; instructions_executed = 0 }

abbrev tick : CanonicalEvent
tick = record {
  exchange_ts_ns = 1000;
  receive_ts_ns = 1005;
  sequence = 7;
  instrument_id = 3;
  event_type = 2;
  side = 1;
  flags = 0;
  price_ticks = negsuc 24;
  quantity = 40;
  venue_id = 2;
  source_id = 1;
  trade_or_order_id = 99;
}

tick-IsWords : IsWords tick
unfolding to_u64
tick-IsWords = (
  omega arith,
  (
    omega arith,
    (
      omega arith,
      (
        omega arith,
        (
          omega arith,
          (
            omega arith,
            (
              omega arith,
              (omega arith, (omega arith, (omega arith, (omega arith, (omega arith, tt))))),
            ),
          ),
        ),
      ),
    ),
  ),
)

abbrev statement : Expression → Expression → QueryStmt
statement projection where_expr = record {
  projections = record { expr = projection; alias = []; is_wildcard = false } ∷ [];
  table_name = codes "ticks";
  where_expr = where_expr;
  let_bindings = [];
  group_by_columns = [];
  tumble_window = missing;
  aggregations = [];
  order_by = [];
  limit = 0;
}

-- price * 3 > -quantity
abbrev condition : Expression
condition =
    binary_op TokenType.greater (binary_op TokenType.star (column_ref (codes "price")) (literal 3))
      (unary_op TokenType.minus (column_ref (codes "quantity")))

abbrev filter : QueryStmt
filter = statement (column_ref (codes "price")) condition

filter-IsLowerable : IsLowerable (row_expression filter)
unfolding IsLowerable
filter-IsLowerable = (Operator.greater, (Operator.star, tt, omega arith), (UnaryOperator.minus, tt))

filter-nodes : nodes (row_expression filter) + 2 < 2 ^ 32
unfolding nodes
filter-nodes = omega arith

abbrev argument : Expression
argument = binary_op TokenType.plus (column_ref (codes "qty")) (literal 2)

abbrev sum_query : QueryStmt
sum_query = statement (function_call (codes "SUM") (arg argument no_args)) missing

argument-IsLowerable : IsLowerable argument
unfolding IsLowerable
argument-IsLowerable = (Operator.plus, tt, omega arith)

argument-nodes : nodes argument + 3 < 2 ^ 32
unfolding nodes
argument-nodes = omega arith

sum_opcode :
    aggregate_opcode (map to_lower (codes "SUM")) (infer_type argument) ≡ some Opcode.sum_u64
unfolding infer_type resolve_column_info same_name to_lower to_upper
sum_opcode = refl

execute-build_from_query_example :
    (execute 1 idle (build_from_query (some filter)) (some tick)).1
    ≡ some (evaluate (row_expression filter) tick)
execute-build_from_query_example =
    execute-build_from_query tick tick-IsWords 0 idle filter refl filter-IsLowerable filter-nodes

execute_filter-build_from_query_example :
    (execute_filter 1 idle (build_from_query (some filter)) (some tick)).1
    ≡ some (evaluate (row_expression filter) tick >>= λ v. done (not (v == 0)))
execute_filter-build_from_query_example =
    execute_filter-build_from_query tick tick-IsWords 0 idle filter refl filter-IsLowerable
      filter-nodes

execute_aggregate-counts_example :
    (execute_aggregate 1 idle (build_from_query (some filter)) (tick ∷ tick ∷ [])).1
    ≡ some
        (values_of (row_expression filter) (tick ∷ tick ∷ []) >>= λ vs. done (matches vs % 2 ^ 64))
execute_aggregate-counts_example =
    execute_aggregate-counts 0 filter refl filter-IsLowerable filter-nodes (tick ∷ tick ∷ [])
      (tick-IsWords, (tick-IsWords, tt)) idle

abbrev price : Expression
price = column_ref (codes "price")

abbrev least_price : QueryStmt
least_price = statement (function_call (codes "Min") (arg price no_args)) missing

price-IsLowerable : IsLowerable price
unfolding IsLowerable
price-IsLowerable = tt

price-nodes : nodes price + 3 < 2 ^ 32
unfolding nodes
price-nodes = omega arith

price-is_signed : is_signed price ≡ true
unfolding is_signed column same_name to_upper
price-is_signed = refl

least_price_name : map to_lower (codes "Min") ≡ codes "min"
unfolding to_lower
least_price_name = refl

execute_aggregate-signed_reference_example :
    execute_aggregate 1 idle (build_from_query (some least_price)) (tick ∷ tick ∷ [])
    ≡ (idle, some (signed_reference Signed.minimum price (tick ∷ tick ∷ [])))
execute_aggregate-signed_reference_example =
    execute_aggregate-signed_reference 1 idle least_price (codes "Min") price no_args refl
      price-IsLowerable price-is_signed price-nodes (tick ∷ tick ∷ [])
      (tick-IsWords, (tick-IsWords, tt)) Signed.minimum least_price_name (omega arith)

execute_aggregate-reference_example :
    execute_aggregate 1 idle (build_from_query (some sum_query)) (tick ∷ tick ∷ []) ≡ (
      idle,
      some (values_of argument (tick ∷ tick ∷ []) >>= λ vs. done (reference Unsigned.sum_u64 vs)),
    )
execute_aggregate-reference_example =
    execute_aggregate-reference 1 idle sum_query (codes "SUM") argument no_args refl
      argument-IsLowerable argument-nodes Unsigned.sum_u64 sum_opcode (tick ∷ tick ∷ [])
      (tick-IsWords, (tick-IsWords, tt)) (omega arith)

checked_mul_i64-IsExact_example :
    IsExact (checked_mul_i64 (pos (2 ^ 62)) (negsuc 2)) (pos (2 ^ 62) *ℤ negsuc 2)
checked_mul_i64-IsExact_example =
    checked_mul_i64-IsExact (pos (2 ^ 62)) (negsuc 2) (omega arith) (omega arith)

abbrev branching : Function
branching = record {
  parameters = [];
  blocks =
      (const_op (u64_const 5) 1 ∷ branch_op 1 1 2 ∷ [])
      ∷ (return_op 1 ∷ [])
      ∷ (return_op 0 ∷ [])
      ∷ [];
}

branching-AreForward : AreForward 0 branching.blocks
branching-AreForward = ((tt, ((omega arith, omega arith), tt)), ((tt, tt), ((tt, tt), tt)))

execute-Returns_example :
    Returns (execute 9 idle (some branching) (some tick))
    × (execute 9 idle (some branching) (some tick)
        ≡ execute (length branching.blocks + 1) idle (some branching) (some tick))
execute-Returns_example = execute-Returns branching branching-AreForward tick 9 idle (omega arith)
