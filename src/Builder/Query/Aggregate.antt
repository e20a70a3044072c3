-- ===== src/Builder/Query/Aggregate.antt =====
-- src/ir/builder.cpp with src/execution/reference_interpreter.cpp: what `execute_aggregate` computes
-- with the function of a query with an aggregate.
pub mod Choice
use vector_tick.Common.{
  none≢some, All, ℕ, ◌<◌, ◌^◌, ◌+◌, Bool, true, false, List, [], ◌∷◌, ◌++◌, Option, none, some, ◌≡◌,
  refl, sym, ◌∙◌, ap, arith, if◌then◌else◌, map,
}
use mathlib.Core.Path.{subst, fun_ext}
use mathlib.Core.Option.{some-injective}
use vector_tick.Common.Int.{pos, to_u64}
use mathlib.Core.List.{append_assoc}
use vector_tick.Event.{CanonicalEvent}
use vector_tick.Query.{Expression, QueryStmt, Name, Expressions, arg, codes, same_name, to_lower}
use vector_tick.Query.Meaning.{evaluate}
use vector_tick.Query.Words.{IsLowerable, IsWords}
use vector_tick.Ir.{Function, Instruction, ValueType, return_op, aggregate_op, opcode}
use vector_tick.Ir.Ops.{Opcode, is_aggregate}
use vector_tick.Interpreter.{Interpreter, Values, parameter_values, execute_instruction}
use vector_tick.Interpreter.Arithmetic.{Run, done, failed, undefined, ◌>>=◌}
use vector_tick.Interpreter.Aggregate.{
  Accumulator, initial, add_row, run_row, run_rows, aggregate_outcome, aggregate_with, aggregate_of,
  execute_aggregate, input_of, known_or_zero,
}
use vector_tick.Builder.{lower_expression, lower_aggregate, infer_type}
use vector_tick.Builder.Correct.{Lowered, nodes, lower_expression-Lowered}
use vector_tick.Builder.Correct.Blocks.{Loop, Runs}
use vector_tick.Builder.Operators.{IsPlain}
use vector_tick.Builder.Emit.{Builder, create, create_count, row_index, is_i64}
use vector_tick.Builder.Query.{
  agg_call, build_from_query, new_function, returning, function_of, lower_query,
}
use vector_tick.Builder.Query.Aggregate.Choice.{aggregate_opcode, chosen}

-- The rows one after another, each by the meaning of the aggregate's argument.
unfoldable pub fold_rows : Opcode → Expression → List CanonicalEvent → Accumulator → Run Accumulator
fold_rows op e [] a = done a
fold_rows op e (event ∷ events) a = do
  v ← evaluate e event
  next ← add_row op v a
  fold_rows op e events next

plain_row :
    (i : Instruction) (rest : List Instruction) (event : CanonicalEvent) (s : Values)
    (result : Run Values)
    → IsPlain i
    → execute_instruction i event s ≡ result
    → run_row (i ∷ rest) event s ≡ (result >>= run_row rest event)
unfolding run_row
plain_row i rest event s result (flat, single) e =
    ap
      (λ t.
        if t then done (input_of i s) else (execute_instruction i event s >>= run_row rest event))
      single
    ∙ ap (λ m. m >>= run_row rest event) e

-- The loop of `execute_aggregate` over the entry block.
abbrev row_loop : (event : CanonicalEvent) → Loop event
row_loop event = record {
  State = Values;
  Ended = Run ℕ;
  values = λ s. s;
  update = λ s v. v;
  values-update = λ s v. refl;
  loop = λ block s. run_row block event s;
  error = λ e. failed e;
  lost = undefined;
  goes = λ i rest s v flat e. plain_row i rest event s (done v) flat e;
  fails = λ i rest s c flat e. plain_row i rest event s (failed c) flat e;
  loses = λ i rest s flat e. plain_row i rest event s undefined flat e;
}

-- The instructions of a query: its argument's code, the aggregate and the return.
abbrev query_block : List Instruction → Instruction → ℕ → List Instruction
query_block code instr r = code ++ instr ∷ return_op r ∷ []

found :
    (code : List Instruction) (instr : Instruction) (r : ℕ)
    → All IsPlain code
    → is_aggregate (opcode instr) ≡ true
    → aggregate_of (query_block code instr r ∷ []) ≡ some instr
found [] instr r p h = rw h refl
found (i ∷ code) instr r ((flat, single), p) h = rw single (found code instr r p h)

module _ (op : Opcode) (is : is_aggregate op ≡ true) (t : ValueType) (id r : ℕ) where
  last_row :
      (v : ℕ) (event : CanonicalEvent) (s : Values) (rest : List Instruction)
      → s id ≡ some v
      → run_row (aggregate_op op id r t ∷ rest) event s ≡ done v
  unfolding run_row
  last_row v event s rest has = rw is (ap (λ o. done (known_or_zero o)) has)

  -- A row gives the value of the argument.
  row_value :
      (m : Run ℕ) (code : List Instruction) (low : ℕ) (event : CanonicalEvent) (s : Values)
      → Runs (row_loop event) m code id low s
      → run_row (query_block code (aggregate_op op id r t) r) event s ≡ m
  row_value (done v) code low event s (s', to, has, keeps) =
      to (aggregate_op op id r t ∷ return_op r ∷ []) ∙ last_row v event s' (return_op r ∷ []) has
  row_value (failed e) code low event s ends = ends (aggregate_op op id r t ∷ return_op r ∷ [])
  row_value undefined code low event s ends = ends (aggregate_op op id r t ∷ return_op r ∷ [])

-- An event, for the code that does not depend on one.
abbrev pub zero_event : CanonicalEvent
zero_event = record {
  exchange_ts_ns = 0;
  receive_ts_ns = 0;
  sequence = 0;
  instrument_id = 0;
  event_type = 0;
  side = 0;
  flags = 0;
  price_ticks = pos 0;
  quantity = 0;
  venue_id = 0;
  source_id = 0;
  trade_or_order_id = 0;
}

pub zero-IsWords : IsWords zero_event
unfolding to_u64
zero-IsWords = (z, (z, (z, (z, (z, (z, (z, (z, (z, (z, (z, (z, tt))))))))))))
  where
    z : 0 < 2 ^ 64
    z = omega arith

-- The builder after the argument.
abbrev argument : Expression → ℕ × Builder
argument e = lower_expression e new_function

module _ (op : Opcode) (is : is_aggregate op ≡ true) (t : ValueType) (e : Expression)
    (h : IsLowerable e) (k : nodes e + 3 < 2 ^ 32) where
  abbrev block_of : ℕ → List Instruction
  block_of r = query_block ((argument e).1.block) (aggregate_op op ((argument e).0) r t) r

  lowered :
      (event : CanonicalEvent)
      → IsWords event
      → Lowered (evaluate e event) event (nodes e) new_function (argument e)
  lowered event w = lower_expression-Lowered event w e h new_function (omega arith)

  one_row :
      (r : ℕ) (event : CanonicalEvent) (s : Values)
      → IsWords event
      → run_row (block_of r) event s ≡ evaluate e event
  one_row r event s w =
      let L = lowered event w in
      ap (λ code. run_row (query_block code (aggregate_op op ((argument e).0) r t) r) event s)
        L.block
      ∙ row_value op is t ((argument e).0) r (evaluate e event) L.code 2 event s
          (L.runs (row_loop event) s)

  all_rows :
      (r : ℕ) (parameters : List ℕ) (events : List CanonicalEvent) (a : Accumulator)
      → All IsWords events
      → run_rows op (block_of r) parameters events a ≡ fold_rows op e events a
  unfolding run_rows fold_rows
  all_rows r parameters [] a w = refl
  all_rows r parameters (event ∷ events) a (w, ws) =
      ap (λ m. m >>= λ v. add_row op v a >>= run_rows op (block_of r) parameters events)
        (one_row r event (parameter_values parameters) w)
      ∙ ap (λ next. evaluate e event >>= λ v. add_row op v a >>= next)
          (fun_ext (λ a'. all_rows r parameters events a' ws))

module _ (fuel : ℕ) (s : Interpreter) (stmt : QueryStmt) (name : Name) (e : Expression)
    (rest : Expressions) (op : Opcode) (call : agg_call stmt ≡ some (name, arg e rest))
    (asks : aggregate_opcode (map to_lower name) (infer_type e) ≡ some op) (h : IsLowerable e)
    (k : nodes e + 3 < 2 ^ 32) where
  abbrev query_function : Function
  query_function =
      function_of
        (returning (create (λ r. aggregate_op op ((argument e).0) r (infer_type e)) (argument e).1))

  built : build_from_query (some stmt) ≡ some query_function
  unfolding build_from_query lower_expression
  built =
      let (is, other, lowers) = chosen (map to_lower name) (infer_type e) op asks in
      ap (λ call. some (function_of (returning (lower_query stmt call new_function)))) call
      ∙ ap
          (λ t. some (
            function_of (
              returning (
                if t
                then create_count (row_index new_function) new_function
                else lower_aggregate (map to_lower name) ((argument e).0) (infer_type e)
                    (argument e).1))))
          other
      ∙ ap (λ p. some (function_of (returning p))) (lowers ((argument e).0) (argument e).1)

  found_here :
      is_aggregate op ≡ true
      → aggregate_of query_function.blocks
        ≡ some (aggregate_op op ((argument e).0) (argument e).1.next_value_id (infer_type e))
  found_here is =
      let r = (argument e).1.next_value_id in
      let L = lowered op is (infer_type e) e h k zero_event zero-IsWords in
      ap (λ block. aggregate_of (block ∷ [])) (append_assoc ((argument e).1.block) _ _)
      ∙ found ((argument e).1.block) (aggregate_op op ((argument e).0) r (infer_type e)) r
          (subst (All IsPlain) (sym L.block) L.plain) is

  -- With the function of a query that asks for the sum, minimum or maximum of an expression with
  -- operators that have a meaning, 64-bit literals and fewer than 2 ^ 32 - 3 nodes,
  -- execute_aggregate over events of 64-bit columns accumulates, row after row, what the expression
  -- means, and ends at the first row that gives an error or something undefined.
  pub execute_aggregate-build_from_query :
      (events : List CanonicalEvent)
      → All IsWords events
      → execute_aggregate fuel s (build_from_query (some stmt)) events
        ≡ aggregate_outcome op s (fold_rows op e events initial)
  unfolding execute_aggregate
  execute_aggregate-build_from_query events w =
      let (is, other, lowers) = chosen (map to_lower name) (infer_type e) op asks in
      let r = (argument e).1.next_value_id in
      ap (λ f. execute_aggregate fuel s f events) built
      ∙ ap (aggregate_with fuel s query_function events) (found_here is)
      ∙ ap
          (λ block.
            aggregate_outcome op s (run_rows op block query_function.parameters events initial))
          (append_assoc ((argument e).1.block) _ _)
      ∙ ap (aggregate_outcome op s)
          (all_rows op is (infer_type e) e h k r query_function.parameters events initial w)
