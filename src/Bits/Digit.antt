-- ===== src/Bits/Digit.antt =====
-- The native bit operations, one equation for the lowest digit, and the induction that goes with it.
use Prim.Native.Nat.{digits, bitwise, differ, bit_and-bitwise, bit_or-bitwise, bit_xor-bitwise}
use vector_tick.Common.{
  ℕ, zero, suc, ◌+◌, ◌*◌, ◌/◌, ◌%◌, ◌≤◌, ◌<◌, min, max, bit_and, bit_or, bit_xor, ◌≡◌, refl, arith,
}

-- A property of every number from that of its half.
pub halving : (P : ℕ → Type 0) → P 0 → ((n : ℕ) → 0 < n → P (n / 2) → P n) → (n : ℕ) → P n
halving P base step n = go n n (omega arith)
  where
    go : (fuel k : ℕ) → k ≤ fuel → P k
    go fuel zero h = base
    go zero (suc k) h = absurd (omega arith)
    go (suc fuel) (suc k) h = step (suc k) (omega arith) (go fuel (suc k / 2) (omega arith))

-- How much more fuel than the first number is given makes no difference.
module _ (rest : ℕ → ℕ) (digit : ℕ → ℕ → ℕ) where
  digits-extra : (a b fuel : ℕ) → a ≤ fuel → digits rest digit fuel a b ≡ digits rest digit a a b
  digits-extra a b fuel h = both fuel a a b h (omega arith)
    where
      both : (m n a b : ℕ) → a ≤ m → a ≤ n → digits rest digit m a b ≡ digits rest digit n a b
      both zero zero a b p q = refl
      both zero (suc n) zero b p q = refl
      both (suc m) zero zero b p q = refl
      both (suc m) (suc n) zero b p q = refl
      both zero n (suc a) b p q = absurd (omega arith)
      both (suc m) zero (suc a) b p q = absurd (omega arith)
      both (suc m) (suc n) (suc a) b p q =
          omega (arith, both m n (suc a / 2) (b / 2) (omega arith) (omega arith))

  bitwise_digit :
      (a b : ℕ)
      → bitwise rest digit (suc a) b
        ≡ bitwise rest digit (suc a / 2) (b / 2) * 2 + digit (suc a % 2) (b % 2)
  bitwise_digit a b = omega (arith, digits-extra (suc a / 2) (b / 2) a (omega arith))

pub zero-bit_and : (b : ℕ) → bit_and 0 b ≡ 0
zero-bit_and b = bit_and-bitwise 0 b

pub zero-bit_or : (b : ℕ) → bit_or 0 b ≡ b
zero-bit_or b = bit_or-bitwise 0 b

pub zero-bit_xor : (b : ℕ) → bit_xor 0 b ≡ b
zero-bit_xor b = bit_xor-bitwise 0 b

differ-mod : (x y : ℕ) → x < 2 → y < 2 → differ x y ≡ (x + y) % 2
differ-mod zero y p q = omega arith
differ-mod (suc zero) zero p q = refl
differ-mod (suc zero) (suc zero) p q = refl
differ-mod (suc zero) (suc (suc y)) p q = absurd (omega arith)
differ-mod (suc (suc x)) y p q = absurd (omega arith)

pub bit_and_digit : (a b : ℕ) → bit_and a b ≡ bit_and (a / 2) (b / 2) * 2 + min (a % 2) (b % 2)
bit_and_digit zero b = omega (arith, zero-bit_and b, zero-bit_and (b / 2))
bit_and_digit (suc a) b = omega (
  arith,
  bit_and-bitwise (suc a) b,
  bit_and-bitwise (suc a / 2) (b / 2),
  bitwise_digit (λ y. 0) min a b,
)

pub bit_or_digit : (a b : ℕ) → bit_or a b ≡ bit_or (a / 2) (b / 2) * 2 + max (a % 2) (b % 2)
bit_or_digit zero b = omega (arith, zero-bit_or b, zero-bit_or (b / 2))
bit_or_digit (suc a) b = omega (
  arith,
  bit_or-bitwise (suc a) b,
  bit_or-bitwise (suc a / 2) (b / 2),
  bitwise_digit (λ y. y) max a b,
)

pub bit_xor_digit : (a b : ℕ) → bit_xor a b ≡ bit_xor (a / 2) (b / 2) * 2 + (a + b) % 2
bit_xor_digit zero b = omega (arith, zero-bit_xor b, zero-bit_xor (b / 2))
bit_xor_digit (suc a) b = omega (
  arith,
  bit_xor-bitwise (suc a) b,
  bit_xor-bitwise (suc a / 2) (b / 2),
  bitwise_digit (λ y. y) differ a b,
  differ-mod (suc a % 2) (b % 2) (omega arith) (omega arith),
)
