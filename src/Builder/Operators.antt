-- ===== src/Builder/Operators.antt =====
-- What the instruction of each operator computes, as the operator's meaning.
pub mod Exact
use vector_tick.Common.{
  ℕ, zero, suc, ◌-◌, ◌+◌, ◌*◌, ◌^◌, ◌<◌, Bool, true, false, Option, some, if◌then◌else◌, ◌≡◌, inl,
  inr, refl, ap, arith,
}
use vector_tick.Common.Int.{ℤ, pos, negsuc, IsI64, to_i64, to_u64, i64_min, to_i64-IsI64}
use mathlib.Core.Path.{subst}
use vector_tick.Status.{internal_error}
use vector_tick.CheckedMath.{same_ℤ, ◌+ℤ◌, ◌-ℤ◌, negate}
use vector_tick.CheckedMath.Exact.{IsExact, checked_add_i64-IsExact, checked_sub_i64-IsExact}
use vector_tick.Event.{CanonicalEvent}
use vector_tick.Query.Tokens.{TokenType}
use vector_tick.Query.Meaning.{Operator, UnaryOperator, fit_u64, fit_i64, meaning, unary_meaning}
use vector_tick.Ir.{
  load_column_op, opcode, const_op, u64_const, ValueType, Instruction, binary_op, compare_op,
  unary_op,
}
use vector_tick.Interpreter.{load_column_value, Control, control, Values, set, execute_instruction}
use vector_tick.Interpreter.Arithmetic.{
  Run, done, failed, ◌>>=◌, checked, map_u64, checked_add_u64, checked_mul_u64, checked_sub_u64,
  checked_add_i64, checked_sub_i64, checked_mul_i64, ◌*ℤ◌, Form, form,
}
use vector_tick.Interpreter.Arithmetic.Exact.{checked_mul_i64-IsExact}
use vector_tick.Builder.{lower_binary, lower_unary}
use vector_tick.Builder.Emit.{Builder, create, create_const_u64, create_load_column}
use vector_tick.CheckedMath
use vector_tick.Ir.Ops.{Opcode, is_aggregate}
use native.Mathlib.Nat.{le-div_iff_mul-le}
use vector_tick.Builder.Operators.Exact.{
  plus_signed, minus_signed, star_signed, plus_unsigned, minus_unsigned, star_unsigned,
  negate_signed, slash_signed, equal_signed, not_equal_signed,
}

-- Neither control flow nor an aggregate.
abbrev pub IsPlain : Instruction → Type 0
IsPlain instr = (control (opcode instr) ≡ Control.plain) × (is_aggregate (opcode instr) ≡ false)

-- A lowering that creates one value by an instruction, which computes `m x` where `known x` holds.
pub record Emits {A : Type 0} (event : CanonicalEvent) (lowered : Builder → ℕ × Builder)
    (m : A → Run ℕ) (known : A → Values → Type 0) : Type 0 where
  pub instr : ℕ → Instruction
  pub creates : (b : Builder) → lowered b ≡ create instr b
  pub is_plain : (r : ℕ) → IsPlain (instr r)
  pub computes :
      (x : A) (r : ℕ) (values : Values)
      → known x values
      → execute_instruction (instr r) event values ≡ (m x >>= λ v. done (set values r v))

-- The operands are words with values.
abbrev pub HasWord : ℕ → ℕ → Values → Type 0
HasWord id a values = (a < 2 ^ 64) × (values id ≡ some a)

abbrev pub HaveWords : ℕ → ℕ → ℕ × ℕ → Values → Type 0
HaveWords lhs rhs (a, c) values = HasWord lhs a values × HasWord rhs c values

abbrev apply : (ℕ → ℕ → Run ℕ) → ℕ × ℕ → Run ℕ
apply f (a, c) = f a c

abbrev type_of_sign : Bool → ValueType
type_of_sign s = if s then ValueType.i64 else ValueType.u64

-- An instruction of two operands emits what its opcode computes of their values.
module _ {event : CanonicalEvent} {lhs rhs : ℕ} {lowered : Builder → ℕ × Builder}
    {m f : ℕ → ℕ → Run ℕ} (o : Opcode)
    (flat : (control o ≡ Control.plain) × (is_aggregate o ≡ false)) (is : form o ≡ Form.binary f)
    (computed : (a c : ℕ) → a < 2 ^ 64 → c < 2 ^ 64 → f a c ≡ m a c) where
  emits_binary :
      (t : ValueType)
      → ((b : Builder) → lowered b ≡ create (λ r. binary_op o lhs rhs r t) b)
      → Emits event lowered (apply m) (HaveWords lhs rhs)
  unfolding execute_instruction
  emits_binary t created = record {
    instr = λ r. binary_op o lhs rhs r t;
    creates = created;
    is_plain = λ r. flat;
    computes = λ (a, c) r values ((h, ea), (k, ec)).
        rw (is, ea, ec) (ap (λ m. m >>= λ v. done (set values r v)) (computed a c h k));
  }

  emits_compare :
      ((b : Builder) → lowered b ≡ create (λ r. compare_op o lhs rhs r) b)
      → Emits event lowered (apply m) (HaveWords lhs rhs)
  unfolding execute_instruction
  emits_compare created = record {
    instr = λ r. compare_op o lhs rhs r;
    creates = created;
    is_plain = λ r. flat;
    computes = λ (a, c) r values ((h, ea), (k, ec)).
        rw (is, ea, ec) (ap (λ m. m >>= λ v. done (set values r v)) (computed a c h k));
  }

module _ {event : CanonicalEvent} {lhs : ℕ} {lowered : Builder → ℕ × Builder} {m f : ℕ → Run ℕ}
    (o : Opcode) (flat : (control o ≡ Control.plain) × (is_aggregate o ≡ false))
    (is : form o ≡ Form.unary f) (computed : (a : ℕ) → a < 2 ^ 64 → f a ≡ m a) where
  emits_unary :
      (t : ValueType)
      → ((b : Builder) → lowered b ≡ create (λ r. unary_op o lhs r t) b)
      → Emits event lowered m (HasWord lhs)
  unfolding execute_instruction
  emits_unary t created = record {
    instr = λ r. unary_op o lhs r t;
    creates = created;
    is_plain = λ r. flat;
    computes = λ a r values (h, ea).
        rw (is, ea) (ap (λ m. m >>= λ v. done (set values r v)) (computed a h));
  }

pub lower_binary-Emits :
    {event : CanonicalEvent} (lhs rhs : ℕ) {op : TokenType}
    → Operator op
    → (s : Bool)
    → Emits event
        (lower_binary op lhs rhs (type_of_sign s))
        (apply (meaning op s))
        (HaveWords lhs rhs)
unfolding lower_binary meaning form execute_instruction
lower_binary-Emits lhs rhs Operator.plus true =
    emits_binary Opcode.add_i64 (refl, refl) refl plus_signed ValueType.i64 (λ b. refl)
lower_binary-Emits lhs rhs Operator.plus false =
    emits_binary Opcode.add_u64 (refl, refl) refl plus_unsigned ValueType.u64 (λ b. refl)
lower_binary-Emits lhs rhs Operator.minus true =
    emits_binary Opcode.sub_i64 (refl, refl) refl minus_signed ValueType.i64 (λ b. refl)
lower_binary-Emits lhs rhs Operator.minus false =
    emits_binary Opcode.sub_u64 (refl, refl) refl minus_unsigned ValueType.u64 (λ b. refl)
lower_binary-Emits lhs rhs Operator.star true =
    emits_binary Opcode.mul_i64 (refl, refl) refl star_signed ValueType.i64 (λ b. refl)
lower_binary-Emits lhs rhs Operator.star false =
    emits_binary Opcode.mul_u64 (refl, refl) refl (λ a c h k. star_unsigned a c) ValueType.u64
      (λ b. refl)
lower_binary-Emits lhs rhs Operator.slash true =
    emits_binary Opcode.div_i64 (refl, refl) refl slash_signed ValueType.i64 (λ b. refl)
lower_binary-Emits lhs rhs Operator.slash false =
    emits_binary Opcode.div_u64 (refl, refl) refl (λ a c h k. refl) ValueType.u64 (λ b. refl)
lower_binary-Emits lhs rhs Operator.percent true = record {
  instr = λ r. binary_op Opcode.mod_i64 lhs rhs r ValueType.i64;
  creates = λ b. refl;
  is_plain = λ r. (refl, refl);
  computes = λ x r values known. refl;
}
lower_binary-Emits lhs rhs Operator.percent false =
    emits_binary Opcode.mod_u64 (refl, refl) refl (λ a c h k. refl) ValueType.u64 (λ b. refl)
lower_binary-Emits lhs rhs Operator.equal true =
    emits_compare Opcode.eq_i64 (refl, refl) refl (λ a c h k. equal_signed a c) (λ b. refl)
lower_binary-Emits lhs rhs Operator.equal false =
    emits_compare Opcode.eq_u64 (refl, refl) refl (λ a c h k. refl) (λ b. refl)
lower_binary-Emits lhs rhs Operator.not_equal true =
    emits_compare Opcode.ne_i64 (refl, refl) refl (λ a c h k. not_equal_signed a c) (λ b. refl)
lower_binary-Emits lhs rhs Operator.not_equal false =
    emits_compare Opcode.ne_u64 (refl, refl) refl (λ a c h k. refl) (λ b. refl)
lower_binary-Emits lhs rhs Operator.less true =
    emits_compare Opcode.lt_i64 (refl, refl) refl (λ a c h k. refl) (λ b. refl)
lower_binary-Emits lhs rhs Operator.less false =
    emits_compare Opcode.lt_u64 (refl, refl) refl (λ a c h k. refl) (λ b. refl)
lower_binary-Emits lhs rhs Operator.less_equal true =
    emits_compare Opcode.le_i64 (refl, refl) refl (λ a c h k. refl) (λ b. refl)
lower_binary-Emits lhs rhs Operator.less_equal false =
    emits_compare Opcode.le_u64 (refl, refl) refl (λ a c h k. refl) (λ b. refl)
lower_binary-Emits lhs rhs Operator.greater true =
    emits_compare Opcode.gt_i64 (refl, refl) refl (λ a c h k. refl) (λ b. refl)
lower_binary-Emits lhs rhs Operator.greater false =
    emits_compare Opcode.gt_u64 (refl, refl) refl (λ a c h k. refl) (λ b. refl)
lower_binary-Emits lhs rhs Operator.greater_equal true =
    emits_compare Opcode.ge_i64 (refl, refl) refl (λ a c h k. refl) (λ b. refl)
lower_binary-Emits lhs rhs Operator.greater_equal false =
    emits_compare Opcode.ge_u64 (refl, refl) refl (λ a c h k. refl) (λ b. refl)
lower_binary-Emits lhs rhs Operator.and s =
    emits_binary Opcode.and (refl, refl) refl (λ a c h k. refl) ValueType.i1 (λ b. refl)
lower_binary-Emits lhs rhs Operator.or s =
    emits_binary Opcode.or (refl, refl) refl (λ a c h k. refl) ValueType.i1 (λ b. refl)
lower_binary-Emits lhs rhs Operator.amp s =
    emits_binary Opcode.bit_and (refl, refl) refl (λ a c h k. refl) ValueType.u64 (λ b. refl)
lower_binary-Emits lhs rhs Operator.pipe s =
    emits_binary Opcode.bit_or (refl, refl) refl (λ a c h k. refl) ValueType.u64 (λ b. refl)
lower_binary-Emits lhs rhs Operator.caret s =
    emits_binary Opcode.bit_xor (refl, refl) refl (λ a c h k. refl) ValueType.u64 (λ b. refl)

pub lower_unary-Emits :
    {event : CanonicalEvent} (lhs : ℕ) {op : TokenType}
    → UnaryOperator op
    → Emits event (lower_unary op lhs) (unary_meaning op) (HasWord lhs)
unfolding lower_unary unary_meaning form
lower_unary-Emits lhs UnaryOperator.minus =
    emits_unary Opcode.neg_i64 (refl, refl) refl negate_signed ValueType.i64 (λ b. refl)
lower_unary-Emits lhs UnaryOperator.bang =
    emits_unary Opcode.not (refl, refl) refl (λ a h. refl) ValueType.i1 (λ b. refl)

-- The value of a constant or of a column.
pub literal-Emits :
    {event : CanonicalEvent} (v : ℕ)
    → Emits event (create_const_u64 v) (λ (x : Unit). done v) (λ x values. Unit)
unfolding execute_instruction form
literal-Emits v = record {
  instr = λ r. const_op (u64_const v) r;
  creates = λ b. refl;
  is_plain = λ r. (refl, refl);
  computes = λ x r values known. refl;
}

pub column-Emits :
    {event : CanonicalEvent} (column_id row_idx : ℕ) (t : ValueType)
    → Emits event
        (create_load_column column_id row_idx t)
        (λ (x : Unit). done (load_column_value column_id event))
        (λ x values. Unit)
unfolding execute_instruction form
column-Emits column_id row_idx t = record {
  instr = λ r. load_column_op column_id row_idx r t;
  creates = λ b. refl;
  is_plain = λ r. (refl, refl);
  computes = λ x r values known. refl;
}
