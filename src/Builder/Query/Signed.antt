-- ===== src/Builder/Query/Signed.antt =====
-- The signed aggregates of a query, as functions of the values of its rows.
pub mod Extremes
pub mod Correct
use vector_tick.Common.{
  All, ℕ, suc, ◌<◌, ◌^◌, ◌+◌, ◌%◌, Bool, true, false, ◌&&◌, if◌then◌else◌, List, [], ◌∷◌, Option,
  none, some, ◌==◌, ◌≡◌, refl, ◌∙◌, ap, arith, map, length,
}
use vector_tick.Common.Int.{
  ℤ, pos, negsuc, leb_ℤ, i64_min, i64_max, to_i64, to_u64, IsI64, to_i64-IsI64,
}
use vector_tick.CheckedMath.{◌+ℤ◌}
use vector_tick.Event.{CanonicalEvent}
use vector_tick.Query.{Expression, QueryStmt, Name, codes, same_name, Expressions, arg, to_lower}
use vector_tick.Query.Meaning.{evaluate, is_signed}
use vector_tick.Query.Words.{IsLowerable, IsWords}
use vector_tick.Ir.{ValueType}
use vector_tick.Ir.Ops.{Opcode}
use vector_tick.Interpreter.{Interpreter}
use vector_tick.Interpreter.Arithmetic.{Run, done, failed, undefined, ◌>>=◌}
use vector_tick.Interpreter.Aggregate.{
  min_ℤ, max_ℤ, Accumulator, initial, aggregate_value, add_row, aggregate_outcome,
  execute_aggregate,
}
use vector_tick.Builder.{infer_type}
use vector_tick.Builder.Emit.{is_i64}
use vector_tick.Builder.Types.{infer_type-is_signed}
use vector_tick.Builder.Correct.{nodes}
use vector_tick.Builder.Query.{agg_call, build_from_query}
use vector_tick.Builder.Query.Aggregate.{fold_rows, execute_aggregate-build_from_query}
use vector_tick.Builder.Query.Aggregate.Choice.{aggregate_opcode}
use vector_tick.Builder.Query.Reference.{
  values_of, values_of-AreWords, AreWords, add_all, fold_rows-add_all,
}

-- The lesser and the greater of two integers.
abbrev pub lesser : ℤ → ℤ → ℤ
lesser x y = if leb_ℤ x y then x else y

abbrev pub greater : ℤ → ℤ → ℤ
greater x y = if leb_ℤ x y then y else x

-- The best of the signed numbers of some words, by a choice between two.
unfoldable pub best : (ℤ → ℤ → ℤ) → ℤ → List ℕ → ℤ
best choose z [] = z
best choose z (v ∷ vs) = best choose (choose z (to_i64 v)) vs

abbrev pub best_of : (ℤ → ℤ → ℤ) → List ℕ → ℕ
best_of choose [] = 0
best_of choose (v ∷ vs) = to_u64 (best choose (to_i64 v) vs)

-- The sum of the values of the rows from a number on, as long as every sum on the way is an i64; a
-- row without a value ends it with what the row gives.
unfoldable pub signed_sum : ℤ → Expression → List CanonicalEvent → Run ℤ
unfolding evaluate
signed_sum z e [] = done z
signed_sum z e (event ∷ events) = do
  v ← evaluate e event
  let sum = z +ℤ to_i64 v
  if leb_ℤ i64_min sum && leb_ℤ sum i64_max then signed_sum sum e events else undefined

-- The aggregates, by their names in lower case.
pub data Signed : Name → Type 0 where
  minimum : Signed (codes "min")
  maximum : Signed (codes "max")
  sum : Signed (codes "sum")

-- The least or the greatest of the values of the rows, or their sum.
unfoldable pub signed_reference :
    {name : Name} → Signed name → Expression → List CanonicalEvent → Run ℕ
unfolding best signed_sum
signed_reference Signed.minimum e events = values_of e events >>= λ vs. done (best_of lesser vs)
signed_reference Signed.maximum e events = values_of e events >>= λ vs. done (best_of greater vs)
signed_reference Signed.sum e events = signed_sum (pos 0) e events >>= λ z. done (to_u64 z)
