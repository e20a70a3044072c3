-- ===== src/Builder/Query/Counting.antt =====
-- What `execute_aggregate` computes with the function of a query without an aggregate.
use vector_tick.Common.{
  All, ℕ, suc, ◌<◌, ◌^◌, ◌+◌, ◌%◌, not, List, [], ◌∷◌, ◌++◌, none, some, ◌≡◌, refl, sym, ◌∙◌, ap,
  arith, if◌then◌else◌, ◌==◌,
}
use vector_tick.Event.{CanonicalEvent}
use vector_tick.Query.{QueryStmt}
use vector_tick.Query.Meaning.{evaluate}
use vector_tick.Query.Words.{IsLowerable, IsWords}
use vector_tick.Ir.{Function, Instruction, return_op}
use mathlib.Core.Path.{subst}
use vector_tick.Builder.Operators.{IsPlain}
use vector_tick.Builder.Query.Aggregate.{zero_event, zero-IsWords}
use vector_tick.Interpreter.{Interpreter, Outcome, execute}
use vector_tick.Interpreter.Arithmetic.{Run, done, failed, undefined, ◌>>=◌}
use vector_tick.Interpreter.Aggregate.{
  count_next, count_rows, execute_aggregate, aggregate_of, aggregate_with,
}
use vector_tick.Builder.{lower_expression}
use vector_tick.Builder.Correct.{nodes, lower_expression-Lowered}
use vector_tick.Builder.Query.{
  agg_call, build_from_query, function_of, returning, lower_query, new_function,
}
use vector_tick.Builder.Query.Correct.{
  row_expression, lower_row_expression, execute-build_from_query,
}
use vector_tick.Builder.Query.Reference.{values_of}

-- How many values are not 0.
unfoldable pub matches : List ℕ → ℕ
matches [] = 0
matches (v ∷ vs) = (if v == 0 then 0 else 1) + matches vs

-- The count that a number of rows goes on to.
abbrev counted : ℕ → Run (List ℕ) → Run ℕ
counted c rows = rows >>= λ vs. done ((c + matches vs) % 2 ^ 64)

next_count :
    (loop : Interpreter → ℕ → Outcome) (c : ℕ) (x : Outcome) (m : Run ℕ) (after : ℕ → Run ℕ)
    → x.1 ≡ some m
    → ((s : Interpreter) (c : ℕ) → c < 2 ^ 64 → (loop s c).1 ≡ some (after c))
    → c < 2 ^ 64
    → (count_next loop c x).1
      ≡ some (m >>= λ v. after (if not (v == 0) then (c + 1) % 2 ^ 64 else c))
next_count loop c (s, r) (done v) after e k h =
    ap (λ r. (count_next loop c (s, r)).1) e
    ∙ k s (if not (v == 0) then (c + 1) % 2 ^ 64 else c) (ground arith)
next_count loop c (s, r) (failed code) after e k h = ap (λ r. (count_next loop c (s, r)).1) e
next_count loop c (s, r) undefined after e k h = ap (λ r. (count_next loop c (s, r)).1) e

counted-row :
    (c v : ℕ) (rows : Run (List ℕ))
    → c < 2 ^ 64
    → counted (if not (v == 0) then (c + 1) % 2 ^ 64 else c) rows
      ≡ counted c (rows >>= λ vs. done (v ∷ vs))
unfolding matches
counted-row c v (done vs) h = ap done (ground arith)
counted-row c v (failed e) h = refl
counted-row c v undefined h = refl

none_among :
    (code : List Instruction) (r : ℕ)
    → All IsPlain code
    → aggregate_of ((code ++ return_op r ∷ []) ∷ []) ≡ none
none_among [] r p = refl
none_among (i ∷ code) r ((flat, single), p) = rw single (none_among code r p)

module _ (fuel : ℕ) (stmt : QueryStmt) (no_call : agg_call stmt ≡ none)
    (h : IsLowerable (row_expression stmt)) (k : nodes (row_expression stmt) + 2 < 2 ^ 32) where
  abbrev row_function : Function
  row_function = function_of (returning (lower_query stmt (agg_call stmt) new_function))

  counted_rows :
      (events : List CanonicalEvent)
      → All IsWords events
      → (s : Interpreter) (c : ℕ) → c < 2 ^ 64
      → (count_rows (suc fuel) row_function events s c).1
        ≡ some (counted c (values_of (row_expression stmt) events))
  unfolding count_rows values_of matches build_from_query
  counted_rows [] w s c l = ap (λ c. some (done c)) (omega arith)
  counted_rows (event ∷ events) (w, ws) s c l =
      next_count (count_rows (suc fuel) row_function events) c
        (execute (suc fuel) s (some row_function) (some event))
        (evaluate (row_expression stmt) event)
        (λ c. counted c (values_of (row_expression stmt) events))
        (execute-build_from_query event w fuel s stmt no_call h k) (counted_rows events ws) l
      ∙ ap some (each (evaluate (row_expression stmt) event))
    where
      each :
          (m : Run ℕ)
          → (m >>= λ v.
              counted
                (if not (v == 0) then (c + 1) % 2 ^ 64 else c)
                (values_of (row_expression stmt) events))
            ≡ counted c (m >>= λ v. values_of (row_expression stmt) events >>= λ vs. done (v ∷ vs))
      each (done v) = counted-row c v (values_of (row_expression stmt) events) l
      each (failed e) = refl
      each undefined = refl

  nothing_found : aggregate_of row_function.blocks ≡ none
  nothing_found =
      let e = row_expression stmt in
      let L = lower_expression-Lowered zero_event zero-IsWords e h new_function (omega arith) in
      ap
        (λ call.
          aggregate_of ((function_of (returning (lower_query stmt call new_function))).blocks))
        no_call
      ∙ ap (λ p. aggregate_of ((function_of (returning p)).blocks))
          (lower_row_expression stmt new_function)
      ∙ none_among (lower_expression e new_function).1.block (lower_expression e new_function).0
          (subst (All IsPlain) (sym L.block) L.plain)

  -- With the function of a query without an aggregate, under the conditions on its row expression
  -- and on the events, execute_aggregate with fuel 1 or more gives the number of the rows whose
  -- value is not 0, modulo 2 ^ 64; where a row has no value, it is what the first such row gives.
  pub execute_aggregate-counts :
      (events : List CanonicalEvent)
      → All IsWords events
      → (s : Interpreter)
      → (execute_aggregate (suc fuel) s (build_from_query (some stmt)) events).1
        ≡ some (values_of (row_expression stmt) events >>= λ vs. done (matches vs % 2 ^ 64))
  unfolding execute_aggregate build_from_query
  execute_aggregate-counts events w s =
      ap (λ instr. (aggregate_with (suc fuel) s row_function events instr).1) nothing_found
      ∙ counted_rows events w s 0 (omega arith)
      ∙ ap some (from_zero (values_of (row_expression stmt) events))
    where
      from_zero :
          (rows : Run (List ℕ)) → counted 0 rows ≡ (rows >>= λ vs. done (matches vs % 2 ^ 64))
      from_zero (done vs) = ap done (omega arith)
      from_zero (failed e) = refl
      from_zero undefined = refl
