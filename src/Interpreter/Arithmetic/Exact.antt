-- ===== src/Interpreter/Arithmetic/Exact.antt =====
-- That the checked multiplication of i64 is the multiplication of integers, cut at the type's bounds.
use vector_tick.Common.{zero, suc, ◌-◌, ◌^◌, arith}
use vector_tick.Common.Int.{ℤ, pos, negsuc, IsI64}
use native.Mathlib.Nat.{le-div_iff_mul-le}
use vector_tick.CheckedMath.Exact.{IsExact}
use vector_tick.Interpreter.Arithmetic.{◌*ℤ◌, checked_mul_i64}

-- `checked_mul_i64` is the product where that is an i64, and else nothing.
pub checked_mul_i64-IsExact : (a b : ℤ) → IsI64 a → IsI64 b → IsExact (checked_mul_i64 a b) (a *ℤ b)
unfolding IsExact checked_mul_i64
checked_mul_i64-IsExact (pos zero) (pos b) h k = ground arith
checked_mul_i64-IsExact (pos zero) (negsuc b) h k = ground arith
checked_mul_i64-IsExact (pos (suc a)) (pos zero) h k = ground arith
checked_mul_i64-IsExact (pos (suc a)) (pos (suc b)) h k =
    let bound = le-div_iff_mul-le {k = suc b} {x = suc a} {y = 2 ^ 63 - 1} (omega arith) in
    ground (arith, bound)
checked_mul_i64-IsExact (pos (suc a)) (negsuc b) h k =
    let bound = le-div_iff_mul-le {k = suc a} {x = suc b} {y = 2 ^ 63} (omega arith) in
    ground (arith, bound)
checked_mul_i64-IsExact (negsuc a) (pos zero) h k = ground arith
checked_mul_i64-IsExact (negsuc a) (pos (suc b)) h k =
    let bound = le-div_iff_mul-le {k = suc b} {x = suc a} {y = 2 ^ 63} (omega arith) in
    ground (arith, bound)
checked_mul_i64-IsExact (negsuc a) (negsuc b) h k =
    let bound = le-div_iff_mul-le {k = suc b} {x = suc a} {y = 2 ^ 63 - 1} (omega arith) in
    ground (arith, bound)
