-- ===== src/Builder/Types.antt =====
-- src/ir/builder.cpp: infer_type, against which expressions are signed.
use vector_tick.Common.{Bool, true, false, ◌||◌, not, ◌&&◌, if◌then◌else◌, ◌≡◌, refl, ap₂, ◌∙◌}
use vector_tick.Query.{Expression, missing, literal, column_ref, binary_op, unary_op, function_call}
use vector_tick.Query.Tokens.{TokenType}
use vector_tick.Query.Meaning.{Operator, UnaryOperator, is_question, is_signed}
use vector_tick.Query.Columns.{resolve_column_info-Describes}
use vector_tick.Query.Words.{IsLowerable}
use vector_tick.Ir.{ValueType}
use vector_tick.Builder.{infer_type}
use vector_tick.Builder.Emit.{is_i64, is_test}

joined :
    (test : Bool) (l r : ValueType)
    → is_i64 (
        if test
        then ValueType.i1
        else (if is_i64 l || is_i64 r then ValueType.i64 else ValueType.u64))
      ≡ (not test && (is_i64 l || is_i64 r))
joined true l r = refl
joined false l r = typed (is_i64 l || is_i64 r)
  where
    typed : (b : Bool) → is_i64 (if b then ValueType.i64 else ValueType.u64) ≡ b
    typed true = refl
    typed false = refl

is_test-is_question : {op : TokenType} → Operator op → is_test op ≡ is_question op
is_test-is_question Operator.plus = refl
is_test-is_question Operator.minus = refl
is_test-is_question Operator.star = refl
is_test-is_question Operator.slash = refl
is_test-is_question Operator.percent = refl
is_test-is_question Operator.equal = refl
is_test-is_question Operator.not_equal = refl
is_test-is_question Operator.less = refl
is_test-is_question Operator.less_equal = refl
is_test-is_question Operator.greater = refl
is_test-is_question Operator.greater_equal = refl
is_test-is_question Operator.and = refl
is_test-is_question Operator.or = refl
is_test-is_question Operator.amp = refl
is_test-is_question Operator.pipe = refl
is_test-is_question Operator.caret = refl

-- The type of an expression is i64 exactly if the expression is signed.
pub infer_type-is_signed : (e : Expression) → IsLowerable e → is_i64 (infer_type e) ≡ is_signed e
unfolding infer_type is_signed IsLowerable
infer_type-is_signed missing h = absurd h
infer_type-is_signed (literal v) h = refl
infer_type-is_signed (column_ref name) h = (resolve_column_info-Describes name).types
infer_type-is_signed (binary_op op l r) (o, hl, hr) =
    joined (is_test op) (infer_type l) (infer_type r)
    ∙ ap₂ (λ q s. not q && s) (is_test-is_question o)
        (ap₂ ◌||◌ (infer_type-is_signed l hl) (infer_type-is_signed r hr))
infer_type-is_signed (unary_op op e) (UnaryOperator.minus, h) = refl
infer_type-is_signed (unary_op op e) (UnaryOperator.bang, h) = refl
infer_type-is_signed (function_call name args) h = absurd h
