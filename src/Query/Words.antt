-- ===== src/Query/Words.antt =====
-- The values of expressions are words of 64 bits.
use vector_tick.Common.{
  ◌||◌, ℕ, zero, suc, ◌+◌, ◌*◌, ◌/◌, ◌^◌, ◌<◌, Bool, true, false, List, [], ◌∷◌, get_elem?, All,
  ◌==◌, if◌then◌else◌, arith, bit_and, bit_or, bit_xor,
}
use vector_tick.Common.Int.{ℤ, pos, negsuc, to_i64, to_u64}
use vector_tick.CheckedMath.{◌+ℤ◌, ◌-ℤ◌}
use vector_tick.Bits.Digit.{
  bit_and_digit, bit_or_digit, bit_xor_digit, zero-bit_and, zero-bit_or, zero-bit_xor,
}
use vector_tick.Status.{internal_error}
use vector_tick.Event.{CanonicalEvent}
use vector_tick.Query.{Expression, literal, column_ref, binary_op, unary_op, missing, function_call}
use vector_tick.Query.Tokens.{TokenType}
use vector_tick.Query.Meaning.{
  Operator, UnaryOperator, fit_u64, fit_i64, ratio, answer, meaning, unary_meaning, evaluate,
  is_signed,
}
use mathlib.Core.Path.{subst}
use vector_tick.Query.Columns.{resolve_column_info-Describes}
use vector_tick.Builder.Columns.{resolve_column_info, column_id_or_zero}
use vector_tick.Interpreter.{columns, load_column_value}
use vector_tick.Interpreter.Arithmetic.{Run, done, failed, undefined, ◌>>=◌, ◌*ℤ◌, ◌/ℤ◌}
use vector_tick.Ir.{or_zero}

-- A word, where there is a value.
abbrev pub IsWord : Run ℕ → Type 0
IsWord (done v) = v < 2 ^ 64
IsWord (failed s) = Unit
IsWord undefined = Unit

-- Every column of an event is a word.
abbrev pub IsWords : CanonicalEvent → Type 0
IsWords event = All (λ v. v < 2 ^ 64) (columns event)

-- Bit operations do not leave the bits of their operands.
module _ (w a b : ℕ) where
  unfoldable Bounded : Type 0
  Bounded = (bit_and a b < 2 ^ w) × (bit_or a b < 2 ^ w) × (bit_xor a b < 2 ^ w)

bits-Bounded : (w a b : ℕ) → a < 2 ^ w → b < 2 ^ w → Bounded w a b
unfolding Bounded
bits-Bounded zero zero zero h k =
    (omega (arith, zero-bit_and 0), omega (arith, zero-bit_or 0), omega (arith, zero-bit_xor 0))
bits-Bounded zero zero (suc b) h k = absurd (omega arith)
bits-Bounded zero (suc a) b h k = absurd (omega arith)
bits-Bounded (suc w) a b h k =
    let (p, q, r) = bits-Bounded w (a / 2) (b / 2) (omega arith) (omega arith) in
    (
      omega (arith, bit_and_digit a b, p),
      omega (arith, bit_or_digit a b, q),
      omega (arith, bit_xor_digit a b, r),
    )

answer-IsWord : (b : Bool) → IsWord (answer b)
answer-IsWord true = omega arith
answer-IsWord false = omega arith

fit_u64-IsWord : (n : ℕ) → IsWord (fit_u64 n)
fit_u64-IsWord n = ground arith

fit_i64-IsWord : (z : ℤ) → IsWord (fit_i64 z)
unfolding to_u64
fit_i64-IsWord (pos n) = ground arith
fit_i64-IsWord (negsuc n) = ground arith

ratio-IsWord : (z : ℤ) → IsWord (ratio z)
unfolding to_u64
ratio-IsWord (pos n) = ground arith
ratio-IsWord (negsuc n) = ground arith

unless-IsWord : (t : Bool) (m : Run ℕ) → IsWord m → IsWord (if t then failed internal_error else m)
unless-IsWord true m p = tt
unless-IsWord false m p = p

module _ (a b : ℕ) (h : a < 2 ^ 64) (k : b < 2 ^ 64) where
  -- The result of an operator on words is a word.
  pub meaning-IsWord : {op : TokenType} → Operator op → (s : Bool) → IsWord (meaning op s a b)
  unfolding meaning Bounded
  meaning-IsWord Operator.plus true = fit_i64-IsWord (to_i64 a +ℤ to_i64 b)
  meaning-IsWord Operator.plus false = fit_u64-IsWord (a + b)
  meaning-IsWord Operator.minus true = fit_i64-IsWord (to_i64 a -ℤ to_i64 b)
  meaning-IsWord Operator.minus false = ground arith
  meaning-IsWord Operator.star true = fit_i64-IsWord (to_i64 a *ℤ to_i64 b)
  meaning-IsWord Operator.star false = fit_u64-IsWord (a * b)
  meaning-IsWord Operator.slash true =
      unless-IsWord (b == 0) (ratio (to_i64 a /ℤ to_i64 b)) (ratio-IsWord (to_i64 a /ℤ to_i64 b))
  meaning-IsWord Operator.slash false = ground arith
  meaning-IsWord Operator.percent true = tt
  meaning-IsWord Operator.percent false = ground arith
  meaning-IsWord Operator.equal true = answer-IsWord _
  meaning-IsWord Operator.equal false = answer-IsWord _
  meaning-IsWord Operator.not_equal true = answer-IsWord _
  meaning-IsWord Operator.not_equal false = answer-IsWord _
  meaning-IsWord Operator.less true = answer-IsWord _
  meaning-IsWord Operator.less false = answer-IsWord _
  meaning-IsWord Operator.less_equal true = answer-IsWord _
  meaning-IsWord Operator.less_equal false = answer-IsWord _
  meaning-IsWord Operator.greater true = answer-IsWord _
  meaning-IsWord Operator.greater false = answer-IsWord _
  meaning-IsWord Operator.greater_equal true = answer-IsWord _
  meaning-IsWord Operator.greater_equal false = answer-IsWord _
  meaning-IsWord Operator.and s = answer-IsWord _
  meaning-IsWord Operator.or s = answer-IsWord _
  meaning-IsWord Operator.amp s = (bits-Bounded 64 a b h k).0
  meaning-IsWord Operator.pipe s = (bits-Bounded 64 a b h k).1
  meaning-IsWord Operator.caret s = (bits-Bounded 64 a b h k).2

pub unary_meaning-IsWord :
    {op : TokenType} → UnaryOperator op → (a : ℕ) → IsWord (unary_meaning op a)
unfolding unary_meaning
unary_meaning-IsWord UnaryOperator.minus a = fit_i64-IsWord (pos 0 -ℤ to_i64 a)
unary_meaning-IsWord UnaryOperator.bang a = answer-IsWord (a == 0)

nth-word : (xs : List ℕ) (i : ℕ) → All (λ v. v < 2 ^ 64) xs → or_zero (get_elem? xs i) < 2 ^ 64
nth-word [] i h = omega arith
nth-word (x ∷ xs) zero (h, hs) = h
nth-word (x ∷ xs) (suc i) (h, hs) = nth-word xs i hs

bind-IsWord :
    (m : Run ℕ) (f : ℕ → Run ℕ)
    → IsWord m
    → ((v : ℕ) → v < 2 ^ 64 → IsWord (f v))
    → IsWord (m >>= f)
bind-IsWord (done v) f h k = k v h
bind-IsWord (failed s) f h k = tt
bind-IsWord undefined f h k = tt

-- The expressions that the lowering translates: no null pointer, no aggregate, operators with a
-- meaning, literals of 64 bits.
unfoldable pub IsLowerable : Expression → Type 0
IsLowerable missing = ⊥
IsLowerable (literal v) = v < 2 ^ 64
IsLowerable (column_ref name) = Unit
IsLowerable (binary_op op l r) = Operator op × IsLowerable l × IsLowerable r
IsLowerable (unary_op op e) = UnaryOperator op × IsLowerable e
IsLowerable (function_call name args) = ⊥

pub evaluate-IsWord :
    (event : CanonicalEvent)
    → IsWords event
    → (e : Expression) → IsLowerable e
    → IsWord (evaluate e event)
unfolding evaluate IsLowerable load_column_value
evaluate-IsWord event w missing h = absurd h
evaluate-IsWord event w (literal v) h = h
evaluate-IsWord event w (column_ref name) h =
    subst (λ v. v < 2 ^ 64) ((resolve_column_info-Describes name).reads event)
      (nth-word (columns event) (column_id_or_zero (resolve_column_info name)) w)
evaluate-IsWord event w (binary_op op l r) (o, hl, hr) =
    bind-IsWord (evaluate l event) _ (evaluate-IsWord event w l hl) (λ a ha.
      bind-IsWord (evaluate r event) _ (evaluate-IsWord event w r hr)
        (λ b hb. meaning-IsWord a b ha hb o (is_signed l || is_signed r)))
evaluate-IsWord event w (unary_op op e) (o, h) =
    bind-IsWord (evaluate e event) _ (evaluate-IsWord event w e h)
      (λ a ha. unary_meaning-IsWord o a)
evaluate-IsWord event w (function_call name args) h = absurd h
