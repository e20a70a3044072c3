-- ===== src/Vector/Filter/Agree.antt =====
-- The filters of the vector executor against the meaning of the expression.
use vector_tick.Common.{
  ℕ, ◌<◌, ◌%◌, ◌^◌, Bool, true, false, not, ltb, leb, ◌==◌, if◌then◌else◌, ◌≡◌, refl, sym, ◌∙◌, ap,
  All, List, [], ◌∷◌, arith,
}
use vector_tick.Common.Int.{ℤ, IsI64, ltb_ℤ, leb_ℤ, to_i64, to_u64, to_i64-to_u64}
use vector_tick.CheckedMath.{same_ℤ}
use vector_tick.Event.{CanonicalEvent}
use vector_tick.Query.{codes, same_name, to_upper, Expression, column_ref, literal, binary_op}
use vector_tick.Query.Tokens.{TokenType}
use vector_tick.Query.Meaning.{evaluate, meaning, is_signed, column, answer, neither_less}
use vector_tick.Interpreter.Arithmetic.{Run, done, failed, undefined}
use vector_tick.Builder.Operators.Exact.{same_ℤ-neither_less}
use mathlib.Core.List.{filter}
use mathlib.Core.Bool.{Bool-discrete}
use mathlib.Core.Logic.{ite}
use vector_tick.Vector.{Selection, ColumnBatch, filter_loop}
use vector_tick.Vector.Filter.{evaluate_filter}

pub data Comparison : TokenType → Type 0 where
  equal : Comparison TokenType.equal
  not_equal : Comparison TokenType.not_equal
  less : Comparison TokenType.less
  less_equal : Comparison TokenType.less_equal
  greater : Comparison TokenType.greater
  greater_equal : Comparison TokenType.greater_equal

-- A row with a value other than 0.
abbrev pub accepts : Run ℕ → Bool
accepts (done v) = not (v == 0)
accepts (failed e) = false
accepts undefined = false

accepts-answer : (b : Bool) → accepts (answer b) ≡ b
accepts-answer true = refl
accepts-answer false = refl

-- The rows of a selection that pass, in their order.
abbrev pub passing_rows : (ℕ → Bool) → List ℕ → List ℕ
passing_rows f rows = filter {p = λ i. f i ≡ true} (λ i. Bool-discrete (f i) true) rows

abbrev pub price_filter : TokenType → ℕ → Expression
price_filter op v = binary_op op (column_ref (codes "price_ticks")) (literal v)

abbrev pub quantity_filter : TokenType → ℕ → Expression
quantity_filter op v = binary_op op (column_ref (codes "quantity")) (literal v)

pub passing_rows-cons :
    (f : ℕ → Bool) (i : ℕ) (rows : List ℕ)
    → passing_rows f (i ∷ rows) ≡ (if f i then i ∷ passing_rows f rows else passing_rows f rows)
passing_rows-cons f i rows = decided (f i)
  where
    decided :
        (b : Bool)
        → ite {C = List ℕ} (Bool-discrete b true) (i ∷ passing_rows f rows) (passing_rows f rows)
          ≡ (if b then i ∷ passing_rows f rows else passing_rows f rows)
    decided true = refl
    decided false = refl

filter_loop-rows :
    {P : ℕ → Type 0} {f g : ℕ → Bool} (in_sel : Selection)
    → ((i : ℕ) → P i → f i ≡ g i)
    → All P in_sel
    → filter_loop f in_sel ≡ passing_rows g in_sel
unfolding filter_loop
filter_loop-rows [] e h = refl
filter_loop-rows {f = f} {g = g} (i ∷ in_sel) e (h, hs) =
    ap (λ rest. if f i then i ∷ rest else rest) (filter_loop-rows in_sel e hs)
    ∙ ap (λ b. if b then i ∷ passing_rows g in_sel else passing_rows g in_sel) (e i h)
    ∙ sym (passing_rows-cons g i in_sel)

module _ (batch : ColumnBatch) (event_at : ℕ → CanonicalEvent) where
  same_test :
      (test : ℤ → ℤ → Bool) (z : ℤ) (v : ℕ)
      → IsI64 z
      → test z (to_i64 v) ≡ accepts (answer (test (to_i64 (to_u64 z)) (to_i64 v)))
  same_test test z v h =
      ap (λ x. test x (to_i64 v)) (sym (to_i64-to_u64 z h))
      ∙ sym (accepts-answer (test (to_i64 (to_u64 z)) (to_i64 v)))

  module _ (v : ℕ) (in_sel : Selection)
      (same : All
        (λ i. (batch.price_ticks i ≡ (event_at i).price_ticks) × IsI64 (event_at i).price_ticks)
        in_sel) where
    price_row :
        (test : ℤ → ℤ → Bool) (i : ℕ)
        → (batch.price_ticks i ≡ (event_at i).price_ticks) × IsI64 (event_at i).price_ticks
        → test (batch.price_ticks i) (to_i64 v)
          ≡ accepts (answer (test (to_i64 (to_u64 (event_at i).price_ticks)) (to_i64 v)))
    price_row test i (e, h) =
        ap (λ z. test z (to_i64 v)) e ∙ same_test test (event_at i).price_ticks v h

    equal_test : (z : ℤ) → same_ℤ z (to_i64 v) ≡ neither_less z (to_i64 v)
    equal_test z = same_ℤ-neither_less z (to_i64 v)

    -- A comparison of price_ticks with a literal selects, of the rows of a selection whose prices
    -- in the batch are those of the events and fit i64, exactly those for which the expression
    -- means a value other than 0.
    pub evaluate_filter-price :
        {op : TokenType}
        → Comparison op
        → evaluate_filter batch (price_filter op v) in_sel
          ≡ passing_rows (λ i. accepts (evaluate (price_filter op v) (event_at i))) in_sel
    unfolding evaluate_filter evaluate meaning is_signed column same_name to_upper
    evaluate_filter-price Comparison.equal =
        filter_loop-rows in_sel
          (λ i p. equal_test (batch.price_ticks i) ∙ price_row neither_less i p) same
    evaluate_filter-price Comparison.not_equal =
        filter_loop-rows in_sel
          (λ i p.
            ap not (equal_test (batch.price_ticks i))
            ∙ price_row (λ x y. not (neither_less x y)) i p)
          same
    evaluate_filter-price Comparison.less = filter_loop-rows in_sel (price_row ltb_ℤ) same
    evaluate_filter-price Comparison.less_equal = filter_loop-rows in_sel (price_row leb_ℤ) same
    evaluate_filter-price Comparison.greater =
        filter_loop-rows in_sel (price_row (λ x y. ltb_ℤ y x)) same
    evaluate_filter-price Comparison.greater_equal =
        filter_loop-rows in_sel (price_row (λ x y. leb_ℤ y x)) same

  module _ (v : ℕ) (small : v < 2 ^ 32) (in_sel : Selection)
      (same : All (λ i. batch.quantity i ≡ (event_at i).quantity) in_sel) where
    quantity_row :
        (test : ℕ → ℕ → Bool) (i : ℕ)
        → batch.quantity i ≡ (event_at i).quantity
        → test (batch.quantity i) (to_u64 (to_i64 v) % 2 ^ 32)
          ≡ accepts (answer (test (event_at i).quantity v))
    unfolding to_u64 to_i64
    quantity_row test i e =
        ap (λ q. test q (to_u64 (to_i64 v) % 2 ^ 32)) e
        ∙ ap (test (event_at i).quantity) (ground arith)
        ∙ sym (accepts-answer (test (event_at i).quantity v))

    -- A comparison of quantity with a literal of 32 bits selects, of the rows of a selection whose
    -- quantities in the batch are those of the events, exactly those for which the expression means
    -- a value other than 0.
    pub evaluate_filter-quantity :
        {op : TokenType}
        → Comparison op
        → evaluate_filter batch (quantity_filter op v) in_sel
          ≡ passing_rows (λ i. accepts (evaluate (quantity_filter op v) (event_at i))) in_sel
    unfolding evaluate_filter evaluate meaning is_signed column same_name to_upper
    evaluate_filter-quantity Comparison.equal =
        filter_loop-rows in_sel (quantity_row (λ x y. x == y)) same
    evaluate_filter-quantity Comparison.not_equal =
        filter_loop-rows in_sel (quantity_row (λ x y. not (x == y))) same
    evaluate_filter-quantity Comparison.less = filter_loop-rows in_sel (quantity_row ltb) same
    evaluate_filter-quantity Comparison.less_equal = filter_loop-rows in_sel (quantity_row leb) same
    evaluate_filter-quantity Comparison.greater =
        filter_loop-rows in_sel (quantity_row (λ x y. ltb y x)) same
    evaluate_filter-quantity Comparison.greater_equal =
        filter_loop-rows in_sel (quantity_row (λ x y. leb y x)) same
