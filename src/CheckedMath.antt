-- ===== src/CheckedMath.antt =====
-- include/vectortick/common/checked_math.hpp at u64 and at i64. Signed sums that the code proves not
-- to overflow before it forms them are sums of integers.
pub mod Exact
use vector_tick.Common.{
  ℕ, suc, ◌+◌, ◌-◌, ◌*◌, ◌/◌, ◌%◌, ◌^◌, Bool, Option, none, some, ltb, leb, ◌==◌, if◌then◌else◌,
  ◌&&◌, ◌||◌, bit_and,
}
use vector_tick.Common.Int.{ℤ, pos, negsuc, pos_part, neg_part, ltb_ℤ, leb_ℤ, i64_min, i64_max}

abbrev pub u64_max : ℕ
u64_max = 2 ^ 64 - 1

-- The integer `m - n`.
abbrev pub diff : ℕ → ℕ → ℤ
diff m n = if leb n m then pos (m - n) else negsuc (n - m - 1)

infixl 60 ◌+ℤ◌
abbrev pub ◌+ℤ◌ : ℤ → ℤ → ℤ
a +ℤ b = diff (pos_part a + pos_part b) (neg_part a + neg_part b)

infixl 60 ◌-ℤ◌
abbrev pub ◌-ℤ◌ : ℤ → ℤ → ℤ
a -ℤ b = diff (pos_part a + neg_part b) (neg_part a + pos_part b)

-- std::optional's value_or
abbrev pub value_or : {A : Type 0} → Option A → A → A
value_or none d = d
value_or (some x) d = x

unfoldable pub checked_add_u64 : ℕ → ℕ → Option ℕ
checked_add_u64 a b = if ltb (u64_max - b) a then none else some ((a + b) % 2 ^ 64)

unfoldable pub checked_add_i64 : ℤ → ℤ → Option ℤ
checked_add_i64 a b =
    if ltb_ℤ (pos 0) b && ltb_ℤ (i64_max -ℤ b) a
    then none
    else (if ltb_ℤ b (pos 0) && ltb_ℤ a (i64_min -ℤ b) then none else some (a +ℤ b))

unfoldable pub checked_sub_u64 : ℕ → ℕ → Option ℕ
checked_sub_u64 a b = if ltb a b then none else some (a - b)

unfoldable pub checked_sub_i64 : ℤ → ℤ → Option ℤ
checked_sub_i64 a b =
    if ltb_ℤ (pos 0) b && ltb_ℤ a (i64_min +ℤ b)
    then none
    else (if ltb_ℤ b (pos 0) && ltb_ℤ (i64_max +ℤ b) a then none else some (a -ℤ b))

unfoldable pub checked_mul_u64 : ℕ → ℕ → Option ℕ
checked_mul_u64 a b =
    if a == 0 || b == 0
    then some 0
    else (if ltb (u64_max / b) a then none else some (a * b % 2 ^ 64))

unfoldable pub checked_div_u64 : ℕ → ℕ → Option ℕ
checked_div_u64 a b = if b == 0 then none else some (a / b)

unfoldable pub saturating_add_u64 : ℕ → ℕ → ℕ
saturating_add_u64 a b = value_or (checked_add_u64 a b) u64_max

-- For an unsigned type the clamp is `max` on either side.
unfoldable pub saturating_sub_u64 : ℕ → ℕ → ℕ
saturating_sub_u64 a b = value_or (checked_sub_u64 a b) u64_max

unfoldable pub saturating_add_i64 : ℤ → ℤ → ℤ
saturating_add_i64 a b =
    value_or (checked_add_i64 a b) (if ltb_ℤ b (pos 0) then i64_min else i64_max)

unfoldable pub saturating_sub_i64 : ℤ → ℤ → ℤ
saturating_sub_i64 a b =
    value_or (checked_sub_i64 a b) (if ltb_ℤ (pos 0) b then i64_min else i64_max)

unfoldable pub saturating_mul_u64 : ℕ → ℕ → ℕ
saturating_mul_u64 a b = value_or (checked_mul_u64 a b) u64_max

-- `-value` of an i64 that is not the least.
abbrev pub negate : ℤ → ℤ
negate z = pos 0 -ℤ z

abbrev pub same_ℤ : ℤ → ℤ → Bool
same_ℤ a b = leb_ℤ a b && leb_ℤ b a

unfoldable pub checked_neg_i64 : ℤ → Option ℤ
checked_neg_i64 value = if same_ℤ value i64_min then none else some (negate value)

unfoldable pub checked_abs_i64 : ℤ → Option ℤ
checked_abs_i64 value =
    if same_ℤ value i64_min
    then none
    else some (if ltb_ℤ value (pos 0) then negate value else value)

-- u64 to i64 and back
unfoldable pub checked_narrow_u64_i64 : ℕ → Option ℤ
checked_narrow_u64_i64 value = if ltb (2 ^ 63 - 1) value then none else some (pos value)

unfoldable pub checked_narrow_i64_u64 : ℤ → Option ℕ
checked_narrow_i64_u64 value =
    if ltb_ℤ value (pos 0)
    then none
    else (if ltb u64_max (pos_part value) then none else some (pos_part value))
