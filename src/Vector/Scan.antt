-- ===== src/Vector/Scan.antt =====
-- src/execution/vector_executor.cpp: VectorExecutor::execute_events. A printed number is the number, and
-- the time that the execution took is left out.
pub mod Counts
pub mod Rows
use vector_tick.Common.{
  ℕ, zero, suc, ◌+◌, ◌-◌, ◌/◌, ◌%◌, ◌^◌, Bool, true, false, ◌&&◌, ◌||◌, List, [], ◌∷◌, ◌++◌, ltb,
  leb, ◌==◌, if◌then◌else◌, min, length, map,
}
use vector_tick.Common.Int.{ℤ, pos, negsuc, ltb_ℤ, i64_max, to_u64}
use vector_tick.CheckedMath.{◌+ℤ◌, u64_max}
use vector_tick.Event.{CanonicalEvent}
use vector_tick.Interpreter.Aggregate.{fits_i64}
use vector_tick.Interpreter.Arithmetic.{Run, done, failed, undefined, ◌>>=◌, ◌/ℤ◌}
use vector_tick.Query.{
  Name, codes, same_name, to_upper, Expression, missing, column_ref, function_call, Expressions,
  no_args, arg, SelectItem, QueryStmt,
}
use vector_tick.Vector.{
  Selection, max_batch_size, init_all, ColumnBatch, load_batch_from_events, sum_i64, min_i64,
  max_i64, sum_u32, min_u32, max_u32,
}
use vector_tick.Vector.Filter.{evaluate_filter}

abbrev is_call : Expression → Bool
is_call (function_call name args) = true
is_call _ = false

-- `has_aggregates`
abbrev pub has_aggregates : List SelectItem → Bool
has_aggregates [] = false
has_aggregates (item ∷ items) = is_call item.expr || has_aggregates items

-- The aggregation state.
pub record Totals : Type 0 where
  pub agg_count : ℕ
  pub agg_sum_price : ℤ
  pub agg_min_price : ℤ
  pub agg_max_price : ℤ
  pub agg_sum_qty : ℕ
  pub agg_min_qty : ℕ
  pub agg_max_qty : ℕ

abbrev pub no_totals : Totals
no_totals = record {
  agg_count = 0;
  agg_sum_price = pos 0;
  agg_min_price = i64_max;
  agg_max_price = negsuc (2 ^ 63 - 2);
  agg_sum_qty = 0;
  agg_min_qty = 2 ^ 32 - 1;
  agg_max_qty = 0;
}

-- The totals after a batch whose prices sum up to `sum`.
abbrev add_sums : ColumnBatch → Selection → Totals → ℤ → Run Totals
add_sums batch out_sel t sum =
    let price = t.agg_sum_price +ℤ sum in
    let b_min_p = min_i64 batch.price_ticks out_sel in
    let b_max_p = max_i64 batch.price_ticks out_sel in
    let b_min_q = min_u32 batch.quantity out_sel in
    let b_max_q = max_u32 batch.quantity out_sel in
    let added = record t {
      agg_sum_price = price;
      agg_min_price = if ltb_ℤ b_min_p t.agg_min_price then b_min_p else t.agg_min_price;
      agg_max_price = if ltb_ℤ t.agg_max_price b_max_p then b_max_p else t.agg_max_price;
      agg_sum_qty = (t.agg_sum_qty + sum_u32 batch.quantity out_sel) % 2 ^ 64;
      agg_min_qty = if ltb b_min_q t.agg_min_qty then b_min_q else t.agg_min_qty;
      agg_max_qty = if ltb t.agg_max_qty b_max_q then b_max_q else t.agg_max_qty;
    } in
    if fits_i64 price then done added else undefined

abbrev pub add_batch : ColumnBatch → Selection → Totals → Run Totals
add_batch batch out_sel t =
    let counted = record t { agg_count = (t.agg_count + length out_sel) % 2 ^ 64 } in
    if ltb 0 (length out_sel)
    then (sum_i64 batch.price_ticks out_sel >>= add_sums batch out_sel counted)
    else done counted

abbrev pub Row : Type 0
Row = List ℤ

-- A cell of a column by its name.
abbrev cell : ColumnBatch → ℕ → Name → ℤ
cell batch idx name =
    if same_name name (codes "instrument_id")
    then pos (batch.instrument_id idx)
    else (if same_name name (codes "price_ticks")
        then batch.price_ticks idx
        else (if same_name name (codes "quantity")
            then pos (batch.quantity idx)
            else (if same_name name (codes "sequence")
                then pos (batch.sequence idx)
                else (if same_name name (codes "exchange_ts_ns")
                    then pos (batch.exchange_ts_ns idx)
                    else (if same_name name (codes "receive_ts_ns")
                        then pos (batch.receive_ts_ns idx)
                        else (if same_name name (codes "venue_id")
                            then pos (batch.venue_id idx)
                            else (if same_name name (codes "source_id")
                                then pos (batch.source_id idx)
                                else (if same_name name (codes "trade_or_order_id")
                                    then pos (batch.trade_or_order_id idx)
                                    else pos 0))))))))

-- The four cells of a wildcard, and what stands for an item that is neither.
abbrev other_cells : ColumnBatch → ℕ → Bool → Row
other_cells batch idx true =
    pos (batch.sequence idx)
    ∷ pos (batch.instrument_id idx)
    ∷ batch.price_ticks idx
    ∷ pos (batch.quantity idx)
    ∷ []
other_cells batch idx false = pos 0 ∷ []

abbrev item_cells : ColumnBatch → ℕ → Expression → Bool → Row
item_cells batch idx (column_ref name) wildcard = cell batch idx name ∷ []
item_cells batch idx _ wildcard = other_cells batch idx wildcard

abbrev pub row_of : ColumnBatch → ℕ → List SelectItem → Row
row_of batch idx [] = []
row_of batch idx (item ∷ items) =
    item_cells batch idx item.expr item.is_wildcard ++ row_of batch idx items

-- `limit > 0 && result.rows.size() >= limit`
abbrev pub limit_reached : ℕ → List Row → Bool
limit_reached limit rows = ltb 0 limit && leb limit (length rows)

-- The loop that collects the rows of a batch.
unfoldable pub collect_rows : ColumnBatch → List SelectItem → ℕ → Selection → List Row → List Row
collect_rows batch items limit [] rows = rows
collect_rows batch items limit (idx ∷ out_sel) rows =
    let more = rows ++ row_of batch idx items ∷ [] in
    let rest = collect_rows batch items limit out_sel more in
    if limit_reached limit more then more else rest

-- The variables of the loop over the batches.
pub record Scan : Type 0 where
  pub row_offset : ℕ
  pub batch : ColumnBatch
  pub totals : Totals
  pub rows : List Row
  pub rows_matched : ℕ

abbrev pub selected_of : Expression → ColumnBatch → Selection → Selection
selected_of missing batch in_sel = in_sel
selected_of filter_expr batch in_sel = evaluate_filter batch filter_expr in_sel

-- The rest of a round; `next` is the loop from the next round on.
abbrev pub scan_rows : QueryStmt → Selection → ℕ → (Scan → Run Scan) → Scan → Run Scan
scan_rows stmt out_sel size next s =
    let rows = collect_rows s.batch stmt.projections stmt.limit out_sel s.rows in
    let stopped = record s { rows = rows } in
    let rest = next (record stopped { row_offset = s.row_offset + size }) in
    if limit_reached stmt.limit rows then done stopped else rest

abbrev pub scan_totals : Selection → ℕ → (Scan → Run Scan) → Scan → Run Scan
scan_totals out_sel size next s = do
  totals ← add_batch s.batch out_sel s.totals
  next (record s { totals = totals; row_offset = s.row_offset + size })

abbrev pub scan_batch : QueryStmt → List CanonicalEvent → (Scan → Run Scan) → Scan → Run Scan
scan_batch stmt events next s =
    let cur_batch_size = min max_batch_size (length events - s.row_offset) in
    let batch = load_batch_from_events events s.row_offset cur_batch_size s.batch in
    let out_sel = selected_of stmt.where_expr batch (init_all cur_batch_size) in
    let loaded = record s {
      batch = batch;
      rows_matched = (s.rows_matched + length out_sel) % 2 ^ 64;
    } in
    if has_aggregates stmt.projections
    then scan_totals out_sel cur_batch_size next loaded
    else scan_rows stmt out_sel cur_batch_size next loaded

-- The `while (row_offset < total_rows)`, on fuel; each round takes a row at least.
unfoldable pub scan_loop : ℕ → QueryStmt → List CanonicalEvent → Scan → Run Scan
unfolding load_batch_from_events init_all evaluate_filter collect_rows
scan_loop zero stmt events s = done s
scan_loop (suc fuel) stmt events s =
    let round = scan_batch stmt events (scan_loop fuel stmt events) s in
    if ltb s.row_offset (length events) then round else done s

-- Whether a call is of the column quantity.
abbrev is_quantity : Expressions → Bool
is_quantity (arg (column_ref name) rest) = same_name name (codes "quantity")
is_quantity _ = false

abbrev pick : Bool → ℤ → ℤ → ℤ
pick quantity a b = if quantity then a else b

-- The cell of a call. The quotient of the sum of prices is of u64, as the count is.
abbrev call_cell : Name → Bool → Totals → ℤ
call_cell fn quantity t =
    if same_name fn (codes "COUNT")
    then pos t.agg_count
    else (if same_name fn (codes "SUM")
        then pick quantity (pos t.agg_sum_qty) t.agg_sum_price
        else (if same_name fn (codes "MIN")
            then (if ltb 0 t.agg_count
                then pick quantity (pos t.agg_min_qty) t.agg_min_price
                else pos 0)
            else (if same_name fn (codes "MAX")
                then (if ltb 0 t.agg_count
                    then pick quantity (pos t.agg_max_qty) t.agg_max_price
                    else pos 0)
                else (if same_name fn (codes "AVG")
                    then (if t.agg_count == 0
                        then pos 0
                        else pick quantity (pos (t.agg_sum_qty / t.agg_count))
                            (pos (to_u64 t.agg_sum_price / t.agg_count)))
                    else pos 0))))

abbrev aggregate_cell : Expression → Totals → ℤ
aggregate_cell (function_call name args) t = call_cell (map to_upper name) (is_quantity args) t
aggregate_cell _ t = pos 0

abbrev pub aggregate_row : List SelectItem → Totals → Row
aggregate_row [] t = []
aggregate_row (item ∷ items) t = aggregate_cell item.expr t ∷ aggregate_row items t

pub record QueryResult : Type 0 where
  pub rows : List Row
  pub rows_scanned : ℕ
  pub rows_matched : ℕ

abbrev pub first_scan : ColumnBatch → Scan
first_scan batch = record {
  row_offset = 0;
  batch = batch;
  totals = no_totals;
  rows = [];
  rows_matched = 0;
}

-- `execute_events`; `batch` is what the memory of the batch holds before.
unfoldable pub execute_events : ColumnBatch → List CanonicalEvent → QueryStmt → Run QueryResult
unfolding scan_loop
execute_events batch events stmt = do
  s ← scan_loop (length events) stmt events (first_scan batch)
  let rows =
      if has_aggregates stmt.projections
      then s.rows ++ aggregate_row stmt.projections s.totals ∷ []
      else s.rows
  done (record { rows = rows; rows_scanned = length events; rows_matched = s.rows_matched })
