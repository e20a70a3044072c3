-- ===== src/Vector/Filter.antt =====
-- src/execution/vector_executor.cpp: VectorExecutor::evaluate_filter.
pub mod Agree
use vector_tick.Common.{ℕ, ◌%◌, ◌^◌, Bool, true, false, not, ltb, leb, ◌==◌, if◌then◌else◌}
use vector_tick.Common.Int.{ℤ, ltb_ℤ, leb_ℤ, to_i64, to_u64}
use vector_tick.CheckedMath.{same_ℤ}
use vector_tick.Query.{Name, codes, same_name, Expression, column_ref, literal, binary_op}
use vector_tick.Query.Tokens.{TokenType}
use vector_tick.Vector.{
  Selection, ColumnBatch, filter_loop, filter_gt_i64, filter_lt_i64, filter_eq_u32, filter_eq_u16,
}

-- `match` in the loop on price_ticks
abbrev match_price : TokenType → ℤ → ℤ → Bool
match_price TokenType.equal a b = same_ℤ a b
match_price TokenType.not_equal a b = not (same_ℤ a b)
match_price TokenType.greater_equal a b = leb_ℤ b a
match_price TokenType.less_equal a b = leb_ℤ a b
match_price _ a b = false

abbrev filter_price : TokenType → ColumnBatch → ℤ → Selection → Selection
filter_price TokenType.greater batch lit_int in_sel = filter_gt_i64 batch.price_ticks lit_int in_sel
filter_price TokenType.less batch lit_int in_sel = filter_lt_i64 batch.price_ticks lit_int in_sel
filter_price op batch lit_int in_sel =
    filter_loop (λ idx. match_price op (batch.price_ticks idx) lit_int) in_sel

-- `match` in the loop on instrument_id
abbrev match_instrument : TokenType → ℕ → ℕ → Bool
match_instrument TokenType.not_equal a b = not (a == b)
match_instrument TokenType.greater a b = ltb b a
match_instrument TokenType.less a b = ltb a b
match_instrument _ a b = false

abbrev filter_instrument : TokenType → ColumnBatch → ℕ → Selection → Selection
filter_instrument TokenType.equal batch target in_sel =
    filter_eq_u32 batch.instrument_id target in_sel
filter_instrument op batch target in_sel =
    filter_loop (λ idx. match_instrument op (batch.instrument_id idx) target) in_sel

-- `match` in the loop on quantity
abbrev match_quantity : TokenType → ℕ → ℕ → Bool
match_quantity TokenType.equal a b = a == b
match_quantity TokenType.not_equal a b = not (a == b)
match_quantity TokenType.greater a b = ltb b a
match_quantity TokenType.greater_equal a b = leb b a
match_quantity TokenType.less a b = ltb a b
match_quantity TokenType.less_equal a b = leb a b
match_quantity _ a b = false

abbrev filter_column : Name → TokenType → ColumnBatch → ℤ → Selection → Selection
filter_column col op batch lit_int in_sel =
    if same_name col (codes "price_ticks")
    then filter_price op batch lit_int in_sel
    else (if same_name col (codes "instrument_id")
        then filter_instrument op batch (to_u64 lit_int % 2 ^ 32) in_sel
        else (if same_name col (codes "quantity")
            then filter_loop
                (λ idx. match_quantity op (batch.quantity idx) (to_u64 lit_int % 2 ^ 32)) in_sel
            else (if same_name col (codes "venue_id")
                then filter_eq_u16 batch.venue_id (to_u64 lit_int % 2 ^ 16) in_sel
                else in_sel)))

-- Only a column compared with a literal filters; anything else selects all.
unfoldable pub evaluate_filter : ColumnBatch → Expression → Selection → Selection
unfolding filter_loop
evaluate_filter batch (binary_op op (column_ref col) (literal value)) in_sel =
    filter_column col op batch (to_i64 value) in_sel
evaluate_filter batch _ in_sel = in_sel
