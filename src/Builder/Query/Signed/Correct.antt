-- ===== src/Builder/Query/Signed/Correct.antt =====
-- src/ir/builder.cpp with src/execution/reference_interpreter.cpp: the signed aggregates of a query.
use vector_tick.Common.{
  All, ℕ, ◌<◌, ◌^◌, ◌+◌, ◌%◌, Bool, true, false, ◌&&◌, if◌then◌else◌, List, [], ◌∷◌, Option, none,
  some, ◌≡◌, refl, ◌∙◌, ap, arith, map, length,
}
use vector_tick.Common.Int.{ℤ, leb_ℤ, i64_min, i64_max, to_i64, to_u64}
use vector_tick.CheckedMath.{◌+ℤ◌}
use vector_tick.Event.{CanonicalEvent}
use vector_tick.Query.{Expression, QueryStmt, Name, codes, same_name, Expressions, arg, to_lower}
use vector_tick.Query.Meaning.{evaluate, is_signed}
use vector_tick.Query.Words.{IsLowerable, IsWords}
use vector_tick.Ir.Ops.{Opcode}
use vector_tick.Interpreter.{Interpreter}
use vector_tick.Interpreter.Arithmetic.{Run, done, failed, undefined, ◌>>=◌}
use vector_tick.Interpreter.Aggregate.{
  Accumulator, initial, aggregate_value, add_row, aggregate_outcome, execute_aggregate,
}
use vector_tick.Builder.{infer_type}
use vector_tick.Builder.Emit.{is_i64}
use vector_tick.Builder.Types.{infer_type-is_signed}
use vector_tick.Builder.Correct.{nodes}
use vector_tick.Builder.Query.{agg_call, build_from_query}
use vector_tick.Builder.Query.Aggregate.{fold_rows, execute_aggregate-build_from_query}
use vector_tick.Builder.Query.Aggregate.Choice.{aggregate_opcode}
use vector_tick.Builder.Query.Reference.{
  values_of, values_of-AreWords, AreWords, add_all, fold_rows-add_all,
}
use vector_tick.Builder.Query.Signed.{
  lesser, greater, best_of, signed_sum, Signed, signed_reference,
}
use vector_tick.Builder.Query.Signed.Extremes.{add_min, add_max, min-extreme, max-extreme}

rows_run :
    (op : Opcode) (add : ℕ → Accumulator → Accumulator) (value : List ℕ → ℕ) (n : ℕ)
    (s : Interpreter) (m : Run (List ℕ))
    → ((vs : List ℕ)
        → All (λ v. v < 2 ^ 64) vs
        → length vs < 2 ^ 64
        → aggregate_value op (add_all add vs initial) ≡ value vs)
    → AreWords n m
    → n < 2 ^ 64
    → aggregate_outcome op s (m >>= λ vs. done (add_all add vs initial))
      ≡ (s, some (m >>= λ vs. done (value vs)))
rows_run op add value n s (done vs) same (h, k) l =
    ap (λ v. (s, some (done v))) (same vs h (omega (arith, k)))
rows_run op add value n s (failed e) same h l = refl
rows_run op add value n s undefined same h l = refl

sum_run :
    (s : Interpreter) (e : Expression) (events : List CanonicalEvent) (a : Accumulator)
    → aggregate_outcome Opcode.sum_i64 s (fold_rows Opcode.sum_i64 e events a)
      ≡ (s, some (signed_sum a.sum_i64 e events >>= λ z. done (to_u64 z)))
unfolding fold_rows signed_sum
sum_run s e [] a = refl
sum_run s e (event ∷ events) a = row (evaluate e event) (sum_run s e events)
  where
    added :
        (t : Bool) (a' : Accumulator) (rest : Run ℤ)
        → aggregate_outcome Opcode.sum_i64 s (fold_rows Opcode.sum_i64 e events a')
          ≡ (s, some (rest >>= λ z. done (to_u64 z)))
        → aggregate_outcome Opcode.sum_i64 s
            ((if t then done a' else undefined) >>= λ next. fold_rows Opcode.sum_i64 e events next)
          ≡ (s, some ((if t then rest else undefined) >>= λ z. done (to_u64 z)))
    added true a' rest p = p
    added false a' rest p = refl

    row :
        (m : Run ℕ)
        → ((a' : Accumulator)
            → aggregate_outcome Opcode.sum_i64 s (fold_rows Opcode.sum_i64 e events a')
              ≡ (s, some (signed_sum a'.sum_i64 e events >>= λ z. done (to_u64 z))))
        → aggregate_outcome Opcode.sum_i64 s (
            m >>= λ v.
            add_row Opcode.sum_i64 v a >>= λ next. fold_rows Opcode.sum_i64 e events next)
          ≡ (
            s,
            some (
                (m >>= λ v.
                if leb_ℤ i64_min (a.sum_i64 +ℤ to_i64 v) && leb_ℤ (a.sum_i64 +ℤ to_i64 v) i64_max
                then signed_sum (a.sum_i64 +ℤ to_i64 v) e events
                else undefined)
                >>= λ z. done (to_u64 z)),
          )
    row (done v) rest =
        added (leb_ℤ i64_min (a.sum_i64 +ℤ to_i64 v) && leb_ℤ (a.sum_i64 +ℤ to_i64 v) i64_max)
          (record a { count = (a.count + 1) % 2 ^ 64; sum_i64 = a.sum_i64 +ℤ to_i64 v })
          (signed_sum (a.sum_i64 +ℤ to_i64 v) e events)
          (rest (record a { count = (a.count + 1) % 2 ^ 64; sum_i64 = a.sum_i64 +ℤ to_i64 v }))
    row (failed c) rest = refl
    row undefined rest = refl

abbrev choice_of : Name → Bool → Option Opcode
choice_of fname s =
    if same_name fname (codes "count")
    then none
    else (if same_name fname (codes "sum")
        then some (if s then Opcode.sum_i64 else Opcode.sum_u64)
        else (if same_name fname (codes "min")
            then some (if s then Opcode.min_i64 else Opcode.min_u64)
            else (if same_name fname (codes "max")
                then some (if s then Opcode.max_i64 else Opcode.max_u64)
                else none)))

module _ (fuel : ℕ) (s : Interpreter) (stmt : QueryStmt) (name : Name) (e : Expression)
    (rest : Expressions) (call : agg_call stmt ≡ some (name, arg e rest)) (h : IsLowerable e)
    (signed : is_signed e ≡ true) (k : nodes e + 3 < 2 ^ 32) (events : List CanonicalEvent)
    (w : All IsWords events) where
  -- The opcode that a name asks for at a signed argument.
  asks :
      (fname : Name) (op : Opcode)
      → map to_lower name ≡ fname
      → choice_of fname true ≡ some op
      → aggregate_opcode (map to_lower name) (infer_type e) ≡ some op
  asks fname op is asked =
      ap (λ f. choice_of f (is_i64 (infer_type e))) is
      ∙ ap (choice_of fname) (infer_type-is_signed e h ∙ signed)
      ∙ asked

  -- With the function of a query that asks for min, max or sum (in any case of the letters) of a
  -- signed expression, with operators that have a meaning, literals of 64 bits and fewer than 2 ^ 32 - 3
  -- nodes, execute_aggregate over fewer than 2 ^ 64 events of 64-bit columns gives the least or
  -- the greatest of the values of the rows as signed numbers, 0 for no rows, or their sum as a word, as
  -- long as every sum on the way is an i64, and undefined from the first that is not. A row without a
  -- value ends this with what the row gives.
  pub execute_aggregate-signed_reference :
      {fname : Name} (u : Signed fname)
      → map to_lower name ≡ fname
      → length events < 2 ^ 64
      → execute_aggregate fuel s (build_from_query (some stmt)) events
        ≡ (s, some (signed_reference u e events))
  unfolding signed_reference same_name
  execute_aggregate-signed_reference Signed.minimum is l =
      execute_aggregate-build_from_query fuel s stmt name e rest Opcode.min_i64 call
        (asks (codes "min") Opcode.min_i64 is refl) h k events w
      ∙ ap (aggregate_outcome Opcode.min_i64 s)
          (fold_rows-add_all Opcode.min_i64 add_min (λ v a. refl) e events initial)
      ∙ rows_run Opcode.min_i64 add_min (best_of lesser) (length events) s (values_of e events)
          min-extreme (values_of-AreWords e h events w) l
  execute_aggregate-signed_reference Signed.maximum is l =
      execute_aggregate-build_from_query fuel s stmt name e rest Opcode.max_i64 call
        (asks (codes "max") Opcode.max_i64 is refl) h k events w
      ∙ ap (aggregate_outcome Opcode.max_i64 s)
          (fold_rows-add_all Opcode.max_i64 add_max (λ v a. refl) e events initial)
      ∙ rows_run Opcode.max_i64 add_max (best_of greater) (length events) s (values_of e events)
          max-extreme (values_of-AreWords e h events w) l
  execute_aggregate-signed_reference Signed.sum is l =
      execute_aggregate-build_from_query fuel s stmt name e rest Opcode.sum_i64 call
        (asks (codes "sum") Opcode.sum_i64 is refl) h k events w
      ∙ sum_run s e events initial
