-- ===== src/CheckedMath/Exact.antt =====
-- That the checked operations are the operations on numbers, cut at the bounds of the type.
use vector_tick.Common.{
  ℕ, zero, suc, ◌+◌, ◌*◌, ◌^◌, ◌<◌, Option, none, some, ltb, if◌then◌else◌, ◌≡◌, ◌⊎◌, arith,
}
use vector_tick.Common.Int.{ℤ, pos, negsuc, pos_part, neg_part, IsI64, ◌≤ℤ◌, i64_min, i64_max}
use native.Mathlib.Nat.{le-div_iff_mul-le}
use vector_tick.CheckedMath.{
  u64_max, ◌+ℤ◌, ◌-ℤ◌, negate, checked_add_u64, checked_add_i64, checked_sub_i64, checked_mul_u64,
  saturating_add_i64, saturating_sub_i64, checked_neg_i64, checked_abs_i64, checked_narrow_u64_i64,
}

-- The exact result where it is an i64, and else nothing.
unfoldable pub IsExact : Option ℤ → ℤ → Type 0
IsExact r z =
    ((r ≡ some z) × IsI64 z) ⊎ ((r ≡ none) × ((pos (2 ^ 63) ≤ℤ z) ⊎ (z ≤ℤ negsuc (2 ^ 63))))

-- An i64 nearest to an integer.
pub IsClamped : ℤ → ℤ → Type 0
IsClamped r z =
    ((r ≡ z) × IsI64 z)
    ⊎ ((r ≡ i64_max) × (pos (2 ^ 63) ≤ℤ z))
    ⊎ ((r ≡ i64_min) × (z ≤ℤ negsuc (2 ^ 63)))

-- `checked_add` of two i64 is their sum where that is an i64, and else nothing.
pub checked_add_i64-IsExact : (a b : ℤ) → IsI64 a → IsI64 b → IsExact (checked_add_i64 a b) (a +ℤ b)
unfolding IsExact checked_add_i64
checked_add_i64-IsExact (pos a) (pos b) h k = ground arith
checked_add_i64-IsExact (pos a) (negsuc b) h k = ground arith
checked_add_i64-IsExact (negsuc a) (pos b) h k = ground arith
checked_add_i64-IsExact (negsuc a) (negsuc b) h k = ground arith

-- `checked_sub` of two i64 is their difference where that is an i64, and else nothing.
pub checked_sub_i64-IsExact : (a b : ℤ) → IsI64 a → IsI64 b → IsExact (checked_sub_i64 a b) (a -ℤ b)
unfolding IsExact checked_sub_i64
checked_sub_i64-IsExact (pos a) (pos b) h k = ground arith
checked_sub_i64-IsExact (pos a) (negsuc b) h k = ground arith
checked_sub_i64-IsExact (negsuc a) (pos b) h k = ground arith
checked_sub_i64-IsExact (negsuc a) (negsuc b) h k = ground arith

-- `checked_neg` of an i64 is its negation, and nothing for the least.
pub checked_neg_i64-IsExact : (a : ℤ) → IsI64 a → IsExact (checked_neg_i64 a) (negate a)
unfolding IsExact checked_neg_i64
checked_neg_i64-IsExact (pos a) h = ground arith
checked_neg_i64-IsExact (negsuc a) h = ground arith

-- `checked_abs` of an i64 is its magnitude, and nothing for the least.
pub checked_abs_i64-IsExact :
    (a : ℤ) → IsI64 a → IsExact (checked_abs_i64 a) (pos (pos_part a + neg_part a))
unfolding IsExact checked_abs_i64
checked_abs_i64-IsExact (pos a) h = ground arith
checked_abs_i64-IsExact (negsuc a) h = ground arith

-- Narrowing a u64 to i64 keeps the number where it fits, and gives nothing where it does not.
pub checked_narrow_u64_i64-IsExact : (a : ℕ) → IsExact (checked_narrow_u64_i64 a) (pos a)
unfolding IsExact checked_narrow_u64_i64
checked_narrow_u64_i64-IsExact a = ground arith

-- `saturating_add` of two i64 is the i64 nearest to their sum.
pub saturating_add_i64-IsClamped :
    (a b : ℤ) → IsI64 a → IsI64 b → IsClamped (saturating_add_i64 a b) (a +ℤ b)
unfolding IsClamped saturating_add_i64 checked_add_i64
saturating_add_i64-IsClamped (pos a) (pos b) h k = ground arith
saturating_add_i64-IsClamped (pos a) (negsuc b) h k = ground arith
saturating_add_i64-IsClamped (negsuc a) (pos b) h k = ground arith
saturating_add_i64-IsClamped (negsuc a) (negsuc b) h k = ground arith

-- `saturating_sub` of two i64 is the i64 nearest to their difference.
pub saturating_sub_i64-IsClamped :
    (a b : ℤ) → IsI64 a → IsI64 b → IsClamped (saturating_sub_i64 a b) (a -ℤ b)
unfolding IsClamped saturating_sub_i64 checked_sub_i64
saturating_sub_i64-IsClamped (pos a) (pos b) h k = ground arith
saturating_sub_i64-IsClamped (pos a) (negsuc b) h k = ground arith
saturating_sub_i64-IsClamped (negsuc a) (pos b) h k = ground arith
saturating_sub_i64-IsClamped (negsuc a) (negsuc b) h k = ground arith

-- `checked_add` of two u64 gives nothing exactly where the sum wraps around, and else the sum.
pub checked_add_u64-exact :
    (a b : ℕ)
    → a < 2 ^ 64
    → b < 2 ^ 64
    → checked_add_u64 a b ≡ (if ltb (a + b) (2 ^ 64) then some (a + b) else none)
unfolding checked_add_u64
checked_add_u64-exact a b h k = ground arith

-- `checked_mul` of two u64 gives nothing exactly where the product wraps around, and else the product.
pub checked_mul_u64-exact :
    (a b : ℕ)
    → a < 2 ^ 64
    → b < 2 ^ 64
    → checked_mul_u64 a b ≡ (if ltb (a * b) (2 ^ 64) then some (a * b) else none)
unfolding checked_mul_u64
checked_mul_u64-exact zero b h k = ground arith
checked_mul_u64-exact (suc a) zero h k = ground arith
checked_mul_u64-exact (suc a) (suc b) h k =
    let bound = le-div_iff_mul-le {k = suc b} {x = suc a} {y = u64_max} (omega arith) in
    ground (arith, bound)
