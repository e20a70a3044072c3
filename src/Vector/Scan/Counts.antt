-- ===== src/Vector/Scan/Counts.antt =====
-- The rows that execute_events matches, over all batches, against the meaning of the expression.
use vector_tick.Common.{
  ℕ, zero, suc, ◌+◌, ◌-◌, ◌%◌, ◌^◌, ◌<◌, ◌≤◌, Bool, false, List, [], ◌∷◌, All, length, ltb, min,
  if◌then◌else◌, ◌++◌, ◌≡◌, refl, sym, ◌∙◌, ap, arith, Bool-cases, inl, inr,
}
use vector_tick.Common.Int.{IsI64}
use vector_tick.Event.{CanonicalEvent}
use vector_tick.Query.{QueryStmt}
use vector_tick.Query.Tokens.{TokenType}
use vector_tick.Query.Meaning.{evaluate}
use vector_tick.Interpreter.Arithmetic.{Run, done, ◌>>=◌}
use vector_tick.Vector.{ColumnBatch, max_batch_size, indices_from, init_all, load_batch_from_events}
use vector_tick.Vector.Filter.{evaluate_filter}
use vector_tick.Vector.Filter.Agree.{Comparison, accepts, price_filter, evaluate_filter-price}
use vector_tick.Vector.Scan.{
  Scan, QueryResult, has_aggregates, aggregate_row, collect_rows, scan_batch, scan_loop, first_scan,
  execute_events,
}
use vector_tick.Vector.Scan.Rows.{
  row-IsI64, All-indices, count, count-add, count-passing, count-shift, loaded_price, passing,
  passing_rows-count, row_at,
}

module _ (op : TokenType) (known : Comparison op) (v : ℕ) (events : List CanonicalEvent)
    (prices : All (λ ev. IsI64 ev.price_ticks) events) where
  -- Whether the reference gives a row a value other than 0.
  passes : ℕ → Bool
  passes i = accepts (evaluate (price_filter op v) (row_at events i))

  -- A batch selects as many rows as pass.
  batch_count :
      (start n : ℕ) (batch : ColumnBatch)
      → n ≤ max_batch_size
      → start + n ≤ length events
      → length (
          evaluate_filter
            (load_batch_from_events events start n batch)
            (price_filter op v)
            (init_all n))
        ≡ count passes start n
  unfolding init_all passes
  batch_count start n batch small inside =
      ap length (
        evaluate_filter-price (load_batch_from_events events start n batch)
          (λ i. row_at events (start + i)) v (indices_from 0 (min n max_batch_size)) agrees known)
      ∙ passing_rows-count (λ i. passes (start + i)) 0 (min n max_batch_size) (omega arith)
      ∙ count-shift passes start 0 (min n max_batch_size)
      ∙ ap (λ (i : ℕ). count passes i (min n max_batch_size)) (omega arith)
      ∙ ap (λ (m : ℕ). count passes start m) (omega arith)
    where
      agrees :
          All
            (λ i.
              ((load_batch_from_events events start n batch).price_ticks i
                ≡ (row_at events (start + i)).price_ticks)
              × IsI64 (row_at events (start + i)).price_ticks)
            (indices_from 0 (min n max_batch_size))
      agrees = All-indices 0 (min n max_batch_size) (omega arith) (λ j l. (
        loaded_price events start n batch j (omega arith) inside,
        row-IsI64 events (start + j) prices,
      ))

  module _ (stmt : QueryStmt) (where_price : stmt.where_expr ≡ price_filter op v)
      (plain : has_aggregates stmt.projections ≡ false) (unlimited : stmt.limit ≡ 0) where
    -- The variables after a round.
    abbrev after : Scan → Scan
    after s =
        let n = min max_batch_size (length events - s.row_offset) in
        let batch = load_batch_from_events events s.row_offset n s.batch in
        let out_sel = evaluate_filter batch (price_filter op v) (init_all n) in
        record s {
          row_offset = s.row_offset + n;
          batch = batch;
          rows = collect_rows batch stmt.projections stmt.limit out_sel s.rows;
          rows_matched = (s.rows_matched + length out_sel) % 2 ^ 64;
        }

    scan_batch-after :
        (next : Scan → Run Scan) (s : Scan) → scan_batch stmt events next s ≡ next (after s)
    scan_batch-after next s = rw (plain, where_price) (rw unlimited refl)

    -- The rows matched from an offset on, and that the loop ends.
    scanned :
        (fuel : ℕ) (s : Scan)
        → length events - s.row_offset ≤ fuel
        → s.row_offset ≤ length events
        → s.rows_matched < 2 ^ 64
        → (r : Scan) × (scan_loop fuel stmt events s ≡ done r)
          × (r.rows_matched
              ≡ (s.rows_matched + count passes s.row_offset (length events - s.row_offset))
                % 2 ^ 64)
    unfolding scan_loop count
    scanned zero s enough inside h =
        let none_left : length events - s.row_offset ≡ 0 = omega arith in
        (s, refl, rw none_left (omega arith))
    scanned (suc fuel) s enough inside h = elim (Bool-cases (ltb s.row_offset (length events))) [
      | inl more ↦
          let n = min max_batch_size (length events - s.row_offset) in
          let before : s.row_offset < length events = ground arith in
          let one = batch_count s.row_offset n s.batch (omega arith) (omega arith) in
          let (r, ends, total) = scanned fuel (after s) (omega arith) (omega arith) (omega arith) in
          let parts = count-add passes s.row_offset n (length events - (s.row_offset + n)) in
          let whole : n + (length events - (s.row_offset + n)) ≡ length events - s.row_offset =
            omega arith in
          let joined : count passes s.row_offset (length events - s.row_offset)
              ≡ count passes s.row_offset (n + (length events - (s.row_offset + n))) =
            ap (λ (k : ℕ). count passes s.row_offset k) (sym whole) in
          (
            r,
            ap (λ b. if b then scan_batch stmt events (scan_loop fuel stmt events) s else done s)
                  more
                ∙ scan_batch-after (scan_loop fuel stmt events) s
                ∙ ends,
            omega (arith, total, one, parts, joined),
          )
      | inr stop ↦
          let none_left : length events - s.row_offset ≡ 0 = ground arith in
          (
            s,
            ap (λ b. if b then scan_batch stmt events (scan_loop fuel stmt events) s else done s)
                stop,
            rw none_left (omega arith),
          )
    ]

    -- For a query without an aggregate and without a limit, whose WHERE clause compares price_ticks
    -- with a literal, and events with prices that fit i64, execute_events returns a result, and its
    -- rows_matched is the number of the events for which the clause means a value other than 0,
    -- modulo 2 ^ 64.
    pub execute_events-matched :
        (batch : ColumnBatch)
        → (r : QueryResult) × (execute_events batch events stmt ≡ done r)
          × (r.rows_matched
              ≡ passing (λ ev. accepts (evaluate (price_filter op v) ev)) events % 2 ^ 64)
    unfolding execute_events passes
    execute_events-matched batch =
        let (s, ends, total) =
          scanned (length events) (first_scan batch) (omega arith) (omega arith) (omega arith) in
        let counted : count passes 0 (length events)
            ≡ passing (λ ev. accepts (evaluate (price_filter op v) ev)) events =
          count-passing (λ ev. accepts (evaluate (price_filter op v) ev)) events in
        let all : count passes 0 (length events - 0) ≡ count passes 0 (length events) =
          ap (λ (n : ℕ). count passes 0 n) (omega arith) in
        (
          finish s,
          ap (λ m. m >>= λ s. done (finish s)) ends,
          total ∙ ap (λ (k : ℕ). k % 2 ^ 64) (omega (arith, counted, all)),
        )
      where
        finish : Scan → QueryResult
        finish s =
            let rows =
              if has_aggregates stmt.projections
              then s.rows ++ aggregate_row stmt.projections s.totals ∷ []
              else s.rows in
            record { rows = rows; rows_scanned = length events; rows_matched = s.rows_matched }
