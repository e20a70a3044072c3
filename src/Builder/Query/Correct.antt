-- ===== src/Builder/Query/Correct.antt =====
-- src/ir/builder.cpp with src/execution/reference_interpreter.cpp: what the function of a query
-- without an aggregate returns for an event.
use vector_tick.Common.{
  not, ◌==◌, ℕ, zero, suc, ◌<◌, ◌^◌, ◌+◌, List, [], ◌∷◌, ◌++◌, none, some, ◌≡◌, refl, ◌∙◌, ap,
  arith,
}
use vector_tick.Event.{CanonicalEvent}
use vector_tick.Query.{
  Expression, missing, literal, column_ref, binary_op, unary_op, function_call, QueryStmt,
}
use vector_tick.Query.Meaning.{evaluate}
use vector_tick.Query.Words.{IsLowerable, IsWords}
use vector_tick.Ir.{Instruction, return_op}
use vector_tick.Interpreter.{
  Interpreter, Values, count_instruction, Exit, returned, run_block, run_instruction, continue,
  next_block, Outcome, execute, execute_filter, execute_loop, execute_instruction, parameter_values,
  is_match, map_option,
}
use vector_tick.Interpreter.Arithmetic.{Run, done, failed, undefined, ◌>>=◌}
use vector_tick.Builder.{lower_expression}
use vector_tick.Builder.Correct.{Lowered, nodes, lower_expression-Lowered}
use vector_tick.Builder.Correct.Blocks.{Loop, Runs}
use vector_tick.Builder.Operators.{IsPlain}
use vector_tick.Builder.Emit.{Builder, create_const_u64}
use vector_tick.Builder.Query.{
  if_missing, lower_query, agg_call, build_from_query, new_function, first_projection, lower_row,
  returning, function_of,
}

plain_exit :
    (i : Instruction) (rest : List Instruction) (event : CanonicalEvent) (s : Interpreter)
    (result : Run Values)
    → IsPlain i
    → execute_instruction i event s.values ≡ result
    → (run_block (i ∷ rest) event s).1 ≡ (continue result (run_block rest event) s).1
unfolding run_block
plain_exit i rest event s result (flat, single) e =
    ap (λ c. (run_instruction c i event (run_block rest event) s).1) flat
    ∙ ap (λ m. (continue m (run_block rest event) s).1) e

-- The loop of `execute` over a block.
abbrev block_loop : (event : CanonicalEvent) → Loop event
block_loop event = record {
  State = Interpreter;
  Ended = Exit;
  values = λ s. s.values;
  update = λ s v. count_instruction (record s { values = v });
  values-update = λ s v. refl;
  loop = λ block s. (run_block block event s).1;
  error = λ e. returned (failed e);
  lost = returned undefined;
  goes = λ i rest s v flat e. plain_exit i rest event s (done v) flat e;
  fails = λ i rest s c flat e. plain_exit i rest event s (failed c) flat e;
  loses = λ i rest s flat e. plain_exit i rest event s undefined flat e;
}

-- The return of a value.
return_exit :
    (id v : ℕ) (event : CanonicalEvent) (s : Interpreter)
    → 0 < id
    → s.values id ≡ some v
    → (run_block (return_op id ∷ []) event s).1 ≡ returned (done v)
unfolding run_block
return_exit zero v event s h has = absurd (omega arith)
return_exit (suc id) v event s h has = rw has refl

-- Code for `m` and the return of its value.
code_exit :
    (m : Run ℕ) (code : List Instruction) (id low : ℕ) (event : CanonicalEvent) (s : Interpreter)
    → 0 < id
    → Runs (block_loop event) m code id low s
    → (run_block (code ++ return_op id ∷ []) event s).1 ≡ returned m
code_exit (done v) code id low event s h (s', to, has, keeps) =
    to (return_op id ∷ []) ∙ return_exit id v event s' h has
code_exit (failed e) code id low event s h ends = ends (return_op id ∷ [])
code_exit undefined code id low event s h ends = ends (return_op id ∷ [])

returned_outcome :
    (loop : Interpreter → ℕ → Outcome) (x : Interpreter × Exit) (m : Run ℕ)
    → x.1 ≡ returned m
    → (next_block loop x).1 ≡ some m
returned_outcome loop (s, e) m h = ap (λ e. (next_block loop (s, e)).1) h

-- The expression of a row: the WHERE clause, the first projection, or 1.
abbrev pub row_expression : QueryStmt → Expression
row_expression stmt =
    if_missing stmt.where_expr
      (if_missing (first_projection stmt.projections) (literal 1)
        (first_projection stmt.projections))
      stmt.where_expr

lower_choice :
    (e other : Expression) (b : Builder)
    → if_missing e (lower_expression other b) (lower_expression e b)
      ≡ lower_expression (if_missing e other e) b
lower_choice missing other b = refl
lower_choice (literal v) other b = refl
lower_choice (column_ref name) other b = refl
lower_choice (binary_op op l r) other b = refl
lower_choice (unary_op op e) other b = refl
lower_choice (function_call name args) other b = refl

pub lower_row_expression :
    (stmt : QueryStmt) (b : Builder) → lower_row stmt b ≡ lower_expression (row_expression stmt) b
unfolding lower_expression
lower_row_expression stmt b =
    ap (λ p. if_missing stmt.where_expr p (lower_expression stmt.where_expr b)) (projected b)
    ∙ lower_choice stmt.where_expr _ b
  where
    projected :
        (b : Builder)
        → if_missing
            (first_projection stmt.projections)
            (create_const_u64 1 b)
            (lower_expression (first_projection stmt.projections) b)
          ≡ lower_expression
              (if_missing
                (first_projection stmt.projections)
                (literal 1)
                (first_projection stmt.projections))
              b
    projected b = lower_choice (first_projection stmt.projections) (literal 1) b

is_match-bind : (m : Run ℕ) → is_match m ≡ (m >>= λ v. done (not (v == 0)))
is_match-bind (done v) = refl
is_match-bind (failed e) = refl
is_match-bind undefined = refl

module _ (event : CanonicalEvent) (w : IsWords event) (fuel : ℕ) (s : Interpreter) where
  run_returning :
      (m : Run ℕ) (n : ℕ) (p : ℕ × Builder)
      → Lowered m event n new_function p
      → (execute (suc fuel) s (some (function_of (returning p))) (some event)).1 ≡ some m
  unfolding execute execute_loop
  run_returning m n p L =
      let start = record s { values = parameter_values p.1.parameters } in
      returned_outcome (execute_loop fuel (function_of (returning p)) event)
        (run_block ((returning p).block) event start) m
        (ap (λ block. (run_block (block ++ return_op p.0 ∷ []) event start).1) L.block
          ∙ code_exit m L.code p.0 2 event start (omega (arith, L.is_new))
              (L.runs (block_loop event) start))

  module _ (stmt : QueryStmt) (no_call : agg_call stmt ≡ none)
      (h : IsLowerable (row_expression stmt)) (k : nodes (row_expression stmt) + 2 < 2 ^ 32) where
    -- For a query without an aggregate whose row expression (the WHERE clause, else the first
    -- projection, else 1) has operators with a meaning, literals of 64 bits and fewer than 2 ^ 32 -
    -- 2 nodes, and an event of 64-bit columns, the interpreter with fuel 1 or more on the built
    -- function gives the value that the expression means, its error, or an undefined quotient. A name that is no
    -- column means exchange_ts_ns.
    pub execute-build_from_query :
        (execute (suc fuel) s (build_from_query (some stmt)) (some event)).1
        ≡ some (evaluate (row_expression stmt) event)
    unfolding build_from_query
    execute-build_from_query =
        ap
          (λ call.
            (execute (suc fuel) s
              (some (function_of (returning (lower_query stmt call new_function)))) (some event)).1)
          no_call
        ∙ ap (λ p. (execute (suc fuel) s (some (function_of (returning p))) (some event)).1)
            (lower_row_expression stmt new_function)
        ∙ run_returning (evaluate (row_expression stmt) event) (nodes (row_expression stmt))
            (lower_expression (row_expression stmt) new_function)
            (lower_expression-Lowered event w (row_expression stmt) h new_function (omega arith))

    -- Under the same conditions, execute_filter accepts the event exactly if that value is not 0,
    -- and passes an error on.
    pub execute_filter-build_from_query :
        (execute_filter (suc fuel) s (build_from_query (some stmt)) (some event)).1
        ≡ some (evaluate (row_expression stmt) event >>= λ v. done (not (v == 0)))
    unfolding execute_filter
    execute_filter-build_from_query =
        ap (map_option is_match) execute-build_from_query
        ∙ ap some (is_match-bind (evaluate (row_expression stmt) event))
