-- ===== src/Tests/Vectors.antt =====
-- The vector executor at concrete inputs.
use vector_tick.Common.{false, ◌==◌, if◌then◌else◌, ℕ, ◌%◌, ◌^◌, [], ◌∷◌, ◌≡◌, refl, arith}
use vector_tick.Common.Int.{pos, negsuc}
use vector_tick.Event.{CanonicalEvent}
use vector_tick.Query.{codes, column_ref, missing, QueryStmt}
use vector_tick.Query.Tokens.{TokenType}
use vector_tick.Query.Meaning.{evaluate}
use vector_tick.Interpreter.Arithmetic.{done}
use vector_tick.Builder.Query.Aggregate.{zero_event}
use vector_tick.Vector.{ColumnBatch}
use vector_tick.Vector.Filter.{evaluate_filter}
use vector_tick.Vector.Filter.Agree.{
  passing_rows, Comparison, accepts, price_filter, quantity_filter, evaluate_filter-price,
  evaluate_filter-quantity,
}
use vector_tick.Vector.Scan.{QueryResult, execute_events}
use vector_tick.Vector.Scan.Counts.{execute_events-matched}
use vector_tick.Vector.Scan.Rows.{passing}

abbrev cheap : CanonicalEvent
cheap = record zero_event { price_ticks = negsuc 4; quantity = 10 }

abbrev dear : CanonicalEvent
dear = record zero_event { price_ticks = pos 700; quantity = 3 }

abbrev event_at : ℕ → CanonicalEvent
event_at i = if i == 1 then dear else cheap

abbrev batch : ColumnBatch
batch = record {
  size = 2;
  exchange_ts_ns = λ i. 0;
  receive_ts_ns = λ i. 0;
  sequence = λ i. 0;
  instrument_id = λ i. 0;
  event_type = λ i. 0;
  side = λ i. 0;
  flags = λ i. 0;
  price_ticks = λ i. if i == 1 then pos 700 else negsuc 4;
  quantity = λ i. if i == 1 then 3 else 10;
  venue_id = λ i. 0;
  source_id = λ i. 0;
  trade_or_order_id = λ i. 0;
}

evaluate_filter-price_example :
    evaluate_filter batch (price_filter TokenType.greater_equal 5) (0 ∷ 1 ∷ [])
    ≡ passing_rows
        (λ i. accepts (evaluate (price_filter TokenType.greater_equal 5) (event_at i)))
        (0 ∷ 1 ∷ [])
evaluate_filter-price_example =
    evaluate_filter-price batch event_at 5 (0 ∷ 1 ∷ [])
      ((refl, omega arith), ((refl, omega arith), tt)) Comparison.greater_equal

evaluate_filter-quantity_example :
    evaluate_filter batch (quantity_filter TokenType.less 5) (0 ∷ 1 ∷ [])
    ≡ passing_rows
        (λ i. accepts (evaluate (quantity_filter TokenType.less 5) (event_at i)))
        (0 ∷ 1 ∷ [])
evaluate_filter-quantity_example =
    evaluate_filter-quantity batch event_at 5 (omega arith) (0 ∷ 1 ∷ []) (refl, (refl, tt))
      Comparison.less

abbrev prices_over : QueryStmt
prices_over = record {
  projections =
      record { expr = column_ref (codes "price_ticks"); alias = []; is_wildcard = false } ∷ [];
  table_name = codes "ticks";
  where_expr = price_filter TokenType.greater 5;
  let_bindings = [];
  group_by_columns = [];
  tumble_window = missing;
  aggregations = [];
  order_by = [];
  limit = 0;
}

execute_events-matched_example :
    (r : QueryResult) × (execute_events batch (cheap ∷ dear ∷ []) prices_over ≡ done r)
    × (r.rows_matched
        ≡ passing
            (λ ev. accepts (evaluate (price_filter TokenType.greater 5) ev))
            (cheap ∷ dear ∷ [])
          % 2 ^ 64)
execute_events-matched_example =
    execute_events-matched TokenType.greater Comparison.greater 5 (cheap ∷ dear ∷ [])
      (omega arith, (omega arith, tt)) prices_over refl refl refl batch
