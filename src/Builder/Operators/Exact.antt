-- ===== src/Builder/Operators/Exact.antt =====
-- The checked operations of the interpreter on words, as the operators mean them.
use vector_tick.Common.{
  ℕ, zero, suc, ◌-◌, ◌+◌, ◌*◌, ◌^◌, ◌<◌, Bool, true, false, Option, not, ◌==◌, Bool-cases, ap,
  if◌then◌else◌, ◌≡◌, inl, inr, refl, sym, ◌∙◌, ◌≤◌, ◌/◌, ◌&&◌, arith,
}
use vector_tick.Common.Int.{ℤ, pos, negsuc, IsI64, to_i64, to_u64, i64_min, to_i64-IsI64}
use mathlib.Core.Path.{subst}
use vector_tick.Status.{internal_error}
use vector_tick.CheckedMath.{same_ℤ, ◌+ℤ◌, ◌-ℤ◌, negate}
use vector_tick.CheckedMath.Exact.{IsExact, checked_add_i64-IsExact, checked_sub_i64-IsExact}
use vector_tick.Query.Tokens.{TokenType}
use vector_tick.Query.Meaning.{neither_less, fit_u64, fit_i64, ratio, answer, meaning}
use vector_tick.Interpreter.Arithmetic.{
  done, failed, checked, map_u64, checked_add_u64, checked_mul_u64, checked_sub_u64,
  checked_add_i64, checked_sub_i64, checked_mul_i64, ◌*ℤ◌, ◌/ℤ◌, signed, quotient, signed_test,
  undefined, magnitude, differ, is_negative,
}
use vector_tick.Interpreter.Arithmetic.Exact.{checked_mul_i64-IsExact}
use vector_tick.CheckedMath
use native.Mathlib.Nat.{le-div_iff_mul-le, div-le_self, mul-div-le, mul-le-mul_right}

-- An exact operation on i64, as words.
checked-exact : (o : Option ℤ) (z : ℤ) → IsExact o z → checked (map_u64 o) ≡ fit_i64 z
unfolding IsExact
checked-exact o (pos n) (inl (e, h)) = rw e (ground arith)
checked-exact o (negsuc n) (inl (e, h)) = rw e (ground arith)
checked-exact o (pos n) (inr (e, h)) = rw e (ground arith)
checked-exact o (negsuc n) (inr (e, h)) = rw e (ground arith)

-- The interpreter's own checked operations are those of common/checked_math.hpp.
same_add : (a b : ℤ) → CheckedMath.checked_add_i64 a b ≡ checked_add_i64 a b
unfolding checked_add_i64 CheckedMath.checked_add_i64
same_add a b = refl

same_sub : (a b : ℤ) → CheckedMath.checked_sub_i64 a b ≡ checked_sub_i64 a b
unfolding checked_sub_i64 CheckedMath.checked_sub_i64
same_sub a b = refl

-- The words of the exact operations.
module _ (a b : ℕ) (h : a < 2 ^ 64) (k : b < 2 ^ 64) where
  pub plus_signed :
      checked (map_u64 (checked_add_i64 (to_i64 a) (to_i64 b))) ≡ fit_i64 (to_i64 a +ℤ to_i64 b)
  plus_signed = checked-exact (checked_add_i64 (to_i64 a) (to_i64 b)) (to_i64 a +ℤ to_i64 b) (
      subst (λ o. IsExact o (to_i64 a +ℤ to_i64 b)) (same_add (to_i64 a) (to_i64 b))
        (checked_add_i64-IsExact (to_i64 a) (to_i64 b) (to_i64-IsI64 a h) (to_i64-IsI64 b k)))

  pub minus_signed :
      checked (map_u64 (checked_sub_i64 (to_i64 a) (to_i64 b))) ≡ fit_i64 (to_i64 a -ℤ to_i64 b)
  minus_signed = checked-exact (checked_sub_i64 (to_i64 a) (to_i64 b)) (to_i64 a -ℤ to_i64 b) (
      subst (λ o. IsExact o (to_i64 a -ℤ to_i64 b)) (same_sub (to_i64 a) (to_i64 b))
        (checked_sub_i64-IsExact (to_i64 a) (to_i64 b) (to_i64-IsI64 a h) (to_i64-IsI64 b k)))

  pub star_signed :
      checked (map_u64 (checked_mul_i64 (to_i64 a) (to_i64 b))) ≡ fit_i64 (to_i64 a *ℤ to_i64 b)
  star_signed =
      checked-exact (checked_mul_i64 (to_i64 a) (to_i64 b)) (to_i64 a *ℤ to_i64 b)
        (checked_mul_i64-IsExact (to_i64 a) (to_i64 b) (to_i64-IsI64 a h) (to_i64-IsI64 b k))

  pub plus_unsigned : checked (checked_add_u64 a b) ≡ fit_u64 (a + b)
  unfolding checked_add_u64
  plus_unsigned = ground arith

  pub minus_unsigned : checked (checked_sub_u64 a b) ≡ meaning TokenType.minus false a b
  unfolding checked_sub_u64 meaning
  minus_unsigned = ground arith

-- Words are equal exactly if their signed numbers are.
same_signed : (a b : ℕ) → a < 2 ^ 64 → b < 2 ^ 64 → same_ℤ (to_i64 a) (to_i64 b) ≡ a == b
unfolding to_i64
same_signed a b h k = ground arith

pub same_ℤ-neither_less : (x y : ℤ) → same_ℤ x y ≡ neither_less x y
same_ℤ-neither_less x y = ground arith

pub equal_signed : (a b : ℕ) → signed_test same_ℤ a b ≡ answer (neither_less (to_i64 a) (to_i64 b))
equal_signed a b = ap answer (same_ℤ-neither_less (to_i64 a) (to_i64 b))

pub not_equal_signed :
    (a b : ℕ)
    → signed_test (λ x y. not (same_ℤ x y)) a b ≡ answer (not (neither_less (to_i64 a) (to_i64 b)))
not_equal_signed a b = ap (λ t. answer (not t)) (same_ℤ-neither_less (to_i64 a) (to_i64 b))

-- A positive quotient below 2 ^ 63, and a negative one of at most that magnitude, fit.
positive_ratio : (q : ℕ) → q < 2 ^ 63 → ratio (pos q) ≡ done (to_u64 (pos q))
positive_ratio q h = ground arith

negative_ratio : (q : ℕ) → q ≤ 2 ^ 63 → ratio (signed true q) ≡ done (to_u64 (signed true q))
negative_ratio zero h = refl
negative_ratio (suc q) h = ground arith

either_ratio : (s : Bool) (q : ℕ) → q < 2 ^ 63 → ratio (signed s q) ≡ done (to_u64 (signed s q))
either_ratio true q h = negative_ratio q (omega arith)
either_ratio false q h = positive_ratio q h

negative_either :
    (s : Bool) (q : ℕ) → s ≡ true → q ≤ 2 ^ 63 → ratio (signed s q) ≡ done (to_u64 (signed s q))
negative_either true q e h = negative_ratio q h
negative_either false q e h = absurd (ground arith)

ordinary :
    (t : Bool) (z : ℤ)
    → t ≡ false
    → ratio z ≡ done (to_u64 z)
    → (if t then undefined else done (to_u64 z)) ≡ ratio z
ordinary t z e p = rw e (sym p)

half : (x k : ℕ) → x ≤ 2 ^ 63 → 2 ≤ k → x / k < 2 ^ 63
half x k h two =
    let product = mul-div-le x k in
    let twice : 2 * (x / k) ≤ k * (x / k) = mul-le-mul_right (x / k) two in
    omega (arith, product, twice)

-- Only the least number divided by -1 is no i64.
quotient-ratio :
    (a b : ℤ) → IsI64 a → IsI64 b → same_ℤ b (pos 0) ≡ false → quotient a b ≡ ratio (a /ℤ b)
quotient-ratio (pos n) b h k e =
    ordinary _ (pos n /ℤ b) (ap (λ t. t && same_ℤ b (negsuc 0)) (not_least n)) (
      either_ratio (differ (is_negative (pos n)) (is_negative b)) ((n + 0) / magnitude b)
        (omega (arith, div-le_self (n + 0) (magnitude b))))
  where
    not_least : (n : ℕ) → same_ℤ (pos n) i64_min ≡ false
    not_least n = ground arith
quotient-ratio (negsuc n) (pos m) h k e = ordinary _ (negsuc n /ℤ pos m) (ground arith) (
    negative_either (differ (is_negative (negsuc n)) (is_negative (pos m))) ((0 + suc n) / (m + 0))
      (ground arith) (omega (arith, div-le_self (0 + suc n) (m + 0))))
quotient-ratio (negsuc n) (negsuc zero) h k e = ground arith
quotient-ratio (negsuc n) (negsuc (suc m)) h k e =
    ordinary _ (negsuc n /ℤ negsuc (suc m)) (ground arith) (
      either_ratio (differ (is_negative (negsuc n)) (is_negative (negsuc (suc m))))
        ((0 + suc n) / (0 + suc (suc m)))
        (half (0 + suc n) (0 + suc (suc m)) (omega arith) (omega arith)))

pub slash_signed :
    (a b : ℕ)
    → a < 2 ^ 64
    → b < 2 ^ 64
    → (if same_ℤ (to_i64 b) (pos 0) then failed internal_error else quotient (to_i64 a) (to_i64 b))
      ≡ (if b == 0 then failed internal_error else ratio (to_i64 a /ℤ to_i64 b))
unfolding to_i64
slash_signed a b h k = elim (Bool-cases (b == 0)) [
  | inl z ↦ rw (z, same_signed b 0 k (omega arith) ∙ z) refl
  | inr n ↦
      let apart : same_ℤ (to_i64 b) (pos 0) ≡ false = same_signed b 0 k (omega arith) ∙ n in
      rw (n, apart)
        (quotient-ratio (to_i64 a) (to_i64 b) (to_i64-IsI64 a h) (to_i64-IsI64 b k) apart)
]

negate-fits :
    (z : ℤ)
    → IsI64 z
    → (if same_ℤ z i64_min then failed internal_error else done (to_u64 (negate z)))
      ≡ fit_i64 (negate z)
negate-fits (pos zero) h = refl
negate-fits (pos (suc n)) h = ground arith
negate-fits (negsuc n) h = ground arith

pub negate_signed :
    (a : ℕ)
    → a < 2 ^ 64
    → (if same_ℤ (to_i64 a) i64_min
        then failed internal_error
        else done (to_u64 (negate (to_i64 a))))
      ≡ fit_i64 (negate (to_i64 a))
negate_signed a h = negate-fits (to_i64 a) (to_i64-IsI64 a h)

pub star_unsigned : (a b : ℕ) → checked (checked_mul_u64 a b) ≡ fit_u64 (a * b)
unfolding checked_mul_u64
star_unsigned zero b = ground arith
star_unsigned (suc a) b =
    let bound = le-div_iff_mul-le {k = suc a} {x = b} {y = 2 ^ 64 - 1} (omega arith) in
    ground (arith, bound)
