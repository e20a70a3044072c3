-- ===== src/Interpreter/Arithmetic.antt =====
-- src/execution/reference_interpreter.cpp: the checked arithmetic of ReferenceInterpreter, and what
-- each opcode on values computes.
pub mod Exact
use vector_tick.Common.{
  ℕ, zero, suc, ◌+◌, ◌-◌, ◌*◌, ◌/◌, ◌%◌, ◌^◌, Bool, true, false, ◌&&◌, ◌||◌, not, Option, none,
  some, ltb, leb, ◌==◌, if◌then◌else◌, bit_and, bit_or, bit_xor,
}
use vector_tick.Common.Int.{
  ℤ, pos, negsuc, pos_part, neg_part, ltb_ℤ, leb_ℤ, i64_min, i64_max, to_i64, to_u64,
}
use vector_tick.CheckedMath.{u64_max, ◌+ℤ◌, ◌-ℤ◌, negate, same_ℤ}
use vector_tick.Status.{StatusCode, internal_error}
use vector_tick.Ir.Ops.{Opcode}

-- What a step of the interpreter comes to: a value, an error, or a signed division whose quotient is
-- no i64, for which the language promises nothing.
pub data Run {ℓ} (A : Type ℓ) : Type ℓ where
  done : A → Run A
  failed : StatusCode → Run A
  undefined : Run A

infixl 1 ◌>>=◌
abbrev pub ◌>>=◌ {ℓ κ} : {A : Type ℓ} {B : Type κ} → Run A → (A → Run B) → Run B
done a >>= f = f a
failed s >>= f = failed s
undefined >>= f = undefined

-- A checked operation, and its error.
abbrev pub checked : Option ℕ → Run ℕ
checked none = failed internal_error
checked (some v) = done v

abbrev pub magnitude : ℤ → ℕ
magnitude z = pos_part z + neg_part z

abbrev pub is_negative : ℤ → Bool
is_negative z = ltb 0 (neg_part z)

-- The integer of a sign and a magnitude.
abbrev pub signed : Bool → ℕ → ℤ
signed true zero = pos 0
signed true (suc n) = negsuc n
signed false n = pos n

abbrev pub differ : Bool → Bool → Bool
differ true b = not b
differ false b = b

infixl 70 ◌*ℤ◌
abbrev pub ◌*ℤ◌ : ℤ → ℤ → ℤ
a *ℤ b = signed (differ (is_negative a) (is_negative b)) (magnitude a * magnitude b)

-- The division of the language rounds towards zero.
infixl 70 ◌/ℤ◌
abbrev pub ◌/ℤ◌ : ℤ → ℤ → ℤ
a /ℤ b = signed (differ (is_negative a) (is_negative b)) (magnitude a / magnitude b)

unfoldable pub checked_add_u64 : ℕ → ℕ → Option ℕ
checked_add_u64 a b = if ltb (u64_max - b) a then none else some ((a + b) % 2 ^ 64)

unfoldable pub checked_sub_u64 : ℕ → ℕ → Option ℕ
checked_sub_u64 a b = if ltb a b then none else some (a - b)

unfoldable pub checked_mul_u64 : ℕ → ℕ → Option ℕ
checked_mul_u64 a b = if ltb 0 a && ltb (u64_max / a) b then none else some (a * b % 2 ^ 64)

unfoldable pub checked_add_i64 : ℤ → ℤ → Option ℤ
checked_add_i64 a b =
    if ltb_ℤ (pos 0) b && ltb_ℤ (i64_max -ℤ b) a
    then none
    else (if ltb_ℤ b (pos 0) && ltb_ℤ a (i64_min -ℤ b) then none else some (a +ℤ b))

unfoldable pub checked_sub_i64 : ℤ → ℤ → Option ℤ
checked_sub_i64 a b =
    if ltb_ℤ (pos 0) b && ltb_ℤ a (i64_min +ℤ b)
    then none
    else (if ltb_ℤ b (pos 0) && ltb_ℤ (i64_max +ℤ b) a then none else some (a -ℤ b))

unfoldable pub checked_mul_i64 : ℤ → ℤ → Option ℤ
checked_mul_i64 a b =
    if same_ℤ a (pos 0) || same_ℤ b (pos 0)
    then some (pos 0)
    else (if same_ℤ a (pos 1)
        then some b
        else (if same_ℤ b (pos 1)
            then some a
            else (if (if ltb_ℤ (pos 0) a
                  then (if ltb_ℤ (pos 0) b then ltb_ℤ (i64_max /ℤ b) a else ltb_ℤ b (i64_min /ℤ a))
                  else (if ltb_ℤ (pos 0) b then ltb_ℤ a (i64_min /ℤ b) else ltb_ℤ a (i64_max /ℤ b)))
                then none
                else some (a *ℤ b))))

-- The cases of `execute_instruction` that read values: how many, and what is computed of them.
pub data Form : Type 0 where
  silent constant column choice missing : Form
  unary : (ℕ → Run ℕ) → Form
  binary : (ℕ → ℕ → Run ℕ) → Form

-- `b ? 1 : 0`
abbrev pub truth : Bool → Run ℕ
truth b = done (if b then 1 else 0)

abbrev pub map_u64 : Option ℤ → Option ℕ
map_u64 none = none
map_u64 (some z) = some (to_u64 z)

-- A signed quotient that is no i64.
abbrev pub quotient : ℤ → ℤ → Run ℕ
quotient a b = if same_ℤ a i64_min && same_ℤ b (negsuc 0) then undefined else done (to_u64 (a /ℤ b))

-- `static_cast<i64>` of two words before they are compared.
abbrev pub signed_test : (ℤ → ℤ → Bool) → ℕ → ℕ → Run ℕ
signed_test test a b = truth (test (to_i64 a) (to_i64 b))

-- `static_cast<i64>(static_cast<i32>(val))` as a word
abbrev pub extend_sign : ℕ → ℕ
extend_sign val =
    let low = val % 2 ^ 32 in if ltb low (2 ^ 31) then low else low + (2 ^ 64 - 2 ^ 32)

unfoldable pub form : Opcode → Form
form Opcode.nop = silent
form Opcode.return = silent
form Opcode.const_i64 = constant
form Opcode.const_u64 = constant
form Opcode.const_u32 = constant
form Opcode.const_bool = constant
form Opcode.load_column = column
form Opcode.add_u64 = binary (λ a b. checked (checked_add_u64 a b))
form Opcode.sub_u64 = binary (λ a b. checked (checked_sub_u64 a b))
form Opcode.mul_u64 = binary (λ a b. checked (checked_mul_u64 a b))
form Opcode.div_u64 = binary (λ a b. if b == 0 then failed internal_error else done (a / b))
form Opcode.mod_u64 = binary (λ a b. if b == 0 then failed internal_error else done (a % b))
form Opcode.add_i64 = binary (λ a b. checked (map_u64 (checked_add_i64 (to_i64 a) (to_i64 b))))
form Opcode.sub_i64 = binary (λ a b. checked (map_u64 (checked_sub_i64 (to_i64 a) (to_i64 b))))
form Opcode.mul_i64 = binary (λ a b. checked (map_u64 (checked_mul_i64 (to_i64 a) (to_i64 b))))
form Opcode.div_i64 = binary (λ a b.
    if same_ℤ (to_i64 b) (pos 0) then failed internal_error else quotient (to_i64 a) (to_i64 b))
form Opcode.neg_i64 = unary (λ a.
    if same_ℤ (to_i64 a) i64_min then failed internal_error else done (to_u64 (negate (to_i64 a))))
form Opcode.eq_u64 = binary (λ a b. truth (a == b))
form Opcode.eq_i64 = binary (signed_test same_ℤ)
form Opcode.ne_u64 = binary (λ a b. truth (not (a == b)))
form Opcode.ne_i64 = binary (signed_test (λ a b. not (same_ℤ a b)))
form Opcode.lt_u64 = binary (λ a b. truth (ltb a b))
form Opcode.le_u64 = binary (λ a b. truth (leb a b))
form Opcode.gt_u64 = binary (λ a b. truth (ltb b a))
form Opcode.ge_u64 = binary (λ a b. truth (leb b a))
form Opcode.lt_i64 = binary (signed_test ltb_ℤ)
form Opcode.le_i64 = binary (signed_test leb_ℤ)
form Opcode.gt_i64 = binary (signed_test (λ a b. ltb_ℤ b a))
form Opcode.ge_i64 = binary (signed_test (λ a b. leb_ℤ b a))
form Opcode.and = binary (λ a b. truth (not (a == 0) && not (b == 0)))
form Opcode.or = binary (λ a b. truth (not (a == 0) || not (b == 0)))
form Opcode.not = unary (λ a. truth (a == 0))
form Opcode.bit_and = binary (λ a b. done (bit_and a b))
form Opcode.bit_or = binary (λ a b. done (bit_or a b))
form Opcode.bit_xor = binary (λ a b. done (bit_xor a b))
form Opcode.bit_not = unary (λ a. done (2 ^ 64 - 1 - a))
form Opcode.shl = binary (λ a b. done (if ltb b 64 then a * 2 ^ b % 2 ^ 64 else 0))
form Opcode.shr = binary (λ a b. done (if ltb b 64 then a / 2 ^ b else 0))
form Opcode.extend_i32_to_i64 = unary (λ a. done (extend_sign a))
form Opcode.extend_u32_to_u64 = unary (λ a. done (a % 2 ^ 32))
form Opcode.trunc_i64_to_i32 = unary (λ a. done (a % 2 ^ 32))
form Opcode.select = choice
form _ = missing
