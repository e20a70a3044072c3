-- ===== src/Query/Meaning.antt =====
-- What an expression means for an event: columns by their names, arithmetic on integers that reports a
-- result outside its type, comparisons of signed or unsigned words, logic and bit operations. Nothing
-- here is taken from the builder or from the interpreter but the result type Run and the product and the
-- truncated quotient of integers.
use vector_tick.Common.{
  ℕ, ◌+◌, ◌-◌, ◌*◌, ◌/◌, ◌%◌, ◌^◌, Bool, true, false, ◌&&◌, ◌||◌, not, ltb, leb, ◌==◌,
  if◌then◌else◌, bit_and, bit_or, bit_xor, List, [], ◌∷◌,
}
use vector_tick.Common.Int.{ℤ, pos, ltb_ℤ, leb_ℤ, i64_min, i64_max, to_i64, to_u64}
use vector_tick.CheckedMath.{◌+ℤ◌, ◌-ℤ◌}
use vector_tick.Status.{internal_error, not_implemented}
use vector_tick.Event.{CanonicalEvent}
use vector_tick.Query.{
  Name, codes, Expression, missing, literal, column_ref, binary_op, unary_op, function_call,
}
use vector_tick.Query.Tokens.{TokenType}
use vector_tick.Interpreter.Arithmetic.{Run, done, failed, undefined, ◌>>=◌, ◌*ℤ◌, ◌/ℤ◌}
use Prim.Native.String.{String}

-- A column: its names, how an event is read, and whether its words are signed.
pub record Column : Type 0 where
  pub names : List String
  pub read : CanonicalEvent → ℕ
  pub signed : Bool

abbrev unsigned : List String → (CanonicalEvent → ℕ) → Column
unsigned names read = record { names = names; read = read; signed = false }

-- The column that a name which is no column stands for.
abbrev pub first_column : Column
first_column = unsigned ("exchange_ts_ns" ∷ "exchange_ts" ∷ []) (λ ev. ev.exchange_ts_ns)

abbrev pub table : List Column
table =
    first_column
    ∷ unsigned ("receive_ts_ns" ∷ "receive_ts" ∷ []) (λ ev. ev.receive_ts_ns)
    ∷ unsigned ("sequence" ∷ "seq" ∷ []) (λ ev. ev.sequence)
    ∷ unsigned ("instrument_id" ∷ "symbol" ∷ "instrument" ∷ []) (λ ev. ev.instrument_id)
    ∷ unsigned ("event_type" ∷ []) (λ ev. ev.event_type)
    ∷ unsigned ("side" ∷ []) (λ ev. ev.side)
    ∷ unsigned ("flags" ∷ []) (λ ev. ev.flags)
    ∷ record {
      names = "price_ticks" ∷ "price" ∷ [];
      read = λ ev. to_u64 ev.price_ticks;
      signed = true;
    }
    ∷ unsigned ("quantity" ∷ "qty" ∷ []) (λ ev. ev.quantity)
    ∷ unsigned ("venue_id" ∷ "venue" ∷ []) (λ ev. ev.venue_id)
    ∷ unsigned ("source_id" ∷ "source" ∷ []) (λ ev. ev.source_id)
    ∷ unsigned ("trade_or_order_id" ∷ "trade_id" ∷ "order_id" ∷ []) (λ ev. ev.trade_or_order_id)
    ∷ []

-- The same bytes but for the case of letters.
abbrev pub small_letter : ℕ → ℕ
small_letter c = if leb 65 c && leb c 90 then c + 32 else c

abbrev pub is_spelled : Name → Name → Bool
is_spelled [] [] = true
is_spelled (x ∷ xs) (y ∷ ys) = small_letter x == small_letter y && is_spelled xs ys
is_spelled _ _ = false

-- One of some names, in upper or lower case.
abbrev pub is_named : Name → List String → Bool
is_named name [] = false
is_named name (text ∷ texts) = is_spelled name (codes text) || is_named name texts

abbrev pub find_column : Name → List Column → Column
find_column name [] = first_column
find_column name (c ∷ rest) = if is_named name c.names then c else find_column name rest

unfoldable pub column : Name → Column
column name = find_column name table

-- The operators that have a meaning.
pub data Operator : TokenType → Type 0 where
  plus : Operator TokenType.plus
  minus : Operator TokenType.minus
  star : Operator TokenType.star
  slash : Operator TokenType.slash
  percent : Operator TokenType.percent
  equal : Operator TokenType.equal
  not_equal : Operator TokenType.not_equal
  less : Operator TokenType.less
  less_equal : Operator TokenType.less_equal
  greater : Operator TokenType.greater
  greater_equal : Operator TokenType.greater_equal
  and : Operator TokenType.and
  or : Operator TokenType.or
  amp : Operator TokenType.amp
  pipe : Operator TokenType.pipe
  caret : Operator TokenType.caret

pub data UnaryOperator : TokenType → Type 0 where
  minus : UnaryOperator TokenType.minus
  bang : UnaryOperator TokenType.bang

-- The operators that answer 0 or 1.
abbrev pub is_question : TokenType → Bool
is_question TokenType.equal = true
is_question TokenType.not_equal = true
is_question TokenType.less = true
is_question TokenType.less_equal = true
is_question TokenType.greater = true
is_question TokenType.greater_equal = true
is_question TokenType.and = true
is_question TokenType.or = true
is_question _ = false

-- An expression is a signed number where it is a signed column, a negation, or an operation of which
-- an operand is signed.
unfoldable pub is_signed : Expression → Bool
unfolding column
is_signed (column_ref name) = (column name).signed
is_signed (binary_op op l r) = not (is_question op) && (is_signed l || is_signed r)
is_signed (unary_op TokenType.minus e) = true
is_signed _ = false

-- The answer to a question.
abbrev pub answer : Bool → Run ℕ
answer b = done (if b then 1 else 0)

-- Equal integers: neither is less than the other.
abbrev pub neither_less : ℤ → ℤ → Bool
neither_less x y = not (ltb_ℤ x y || ltb_ℤ y x)

-- A number that has to be a u64, an integer that has to be an i64.
abbrev pub fit_u64 : ℕ → Run ℕ
fit_u64 n = if ltb n (2 ^ 64) then done n else failed internal_error

abbrev pub fit_i64 : ℤ → Run ℕ
fit_i64 z = if leb_ℤ i64_min z && leb_ℤ z i64_max then done (to_u64 z) else failed internal_error

-- A signed quotient; one that is no i64 is undefined.
abbrev pub ratio : ℤ → Run ℕ
ratio z = if leb_ℤ i64_min z && leb_ℤ z i64_max then done (to_u64 z) else undefined

-- An operator on words, read as signed or as unsigned numbers.
unfoldable pub meaning : TokenType → Bool → ℕ → ℕ → Run ℕ
meaning TokenType.plus true a b = fit_i64 (to_i64 a +ℤ to_i64 b)
meaning TokenType.plus false a b = fit_u64 (a + b)
meaning TokenType.minus true a b = fit_i64 (to_i64 a -ℤ to_i64 b)
meaning TokenType.minus false a b = if leb b a then done (a - b) else failed internal_error
meaning TokenType.star true a b = fit_i64 (to_i64 a *ℤ to_i64 b)
meaning TokenType.star false a b = fit_u64 (a * b)
meaning TokenType.slash true a b =
    if b == 0 then failed internal_error else ratio (to_i64 a /ℤ to_i64 b)
meaning TokenType.slash false a b = if b == 0 then failed internal_error else done (a / b)
meaning TokenType.percent true a b = failed not_implemented
meaning TokenType.percent false a b = if b == 0 then failed internal_error else done (a % b)
meaning TokenType.equal true a b = answer (neither_less (to_i64 a) (to_i64 b))
meaning TokenType.equal false a b = answer (a == b)
meaning TokenType.not_equal true a b = answer (not (neither_less (to_i64 a) (to_i64 b)))
meaning TokenType.not_equal false a b = answer (not (a == b))
meaning TokenType.less true a b = answer (ltb_ℤ (to_i64 a) (to_i64 b))
meaning TokenType.less false a b = answer (ltb a b)
meaning TokenType.less_equal true a b = answer (leb_ℤ (to_i64 a) (to_i64 b))
meaning TokenType.less_equal false a b = answer (leb a b)
meaning TokenType.greater true a b = answer (ltb_ℤ (to_i64 b) (to_i64 a))
meaning TokenType.greater false a b = answer (ltb b a)
meaning TokenType.greater_equal true a b = answer (leb_ℤ (to_i64 b) (to_i64 a))
meaning TokenType.greater_equal false a b = answer (leb b a)
meaning TokenType.and s a b = answer (not (a == 0) && not (b == 0))
meaning TokenType.or s a b = answer (not (a == 0) || not (b == 0))
meaning TokenType.amp s a b = done (bit_and a b)
meaning TokenType.pipe s a b = done (bit_or a b)
meaning TokenType.caret s a b = done (bit_xor a b)
meaning _ s a b = failed not_implemented

unfoldable pub unary_meaning : TokenType → ℕ → Run ℕ
unary_meaning TokenType.minus a = fit_i64 (pos 0 -ℤ to_i64 a)
unary_meaning TokenType.bang a = answer (a == 0)
unary_meaning _ a = failed not_implemented

unfoldable pub evaluate : Expression → CanonicalEvent → Run ℕ
unfolding column is_signed
evaluate missing event = failed not_implemented
evaluate (literal v) event = done v
evaluate (column_ref name) event = done ((column name).read event)
evaluate (binary_op op l r) event = do
  a ← evaluate l event
  b ← evaluate r event
  meaning op (is_signed l || is_signed r) a b
evaluate (unary_op op e) event = do a ← evaluate e event; unary_meaning op a
evaluate (function_call name args) event = failed not_implemented
