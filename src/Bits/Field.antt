-- ===== src/Bits/Field.antt =====
-- `&` with a mask and `|` of disjoint fields, as arithmetic, at every width.
use vector_tick.Common.{
  ℕ, zero, suc, ◌+◌, ◌-◌, ◌*◌, ◌/◌, ◌%◌, ◌^◌, ◌<◌, bit_and, bit_or, ◌≡◌, refl, ◌∙◌, ap, arith,
}
use vector_tick.Bits.Digit.{halving, bit_and_digit, bit_or_digit, zero-bit_or}
use native.Mathlib.Nat.{
  pow-suc, pow-succ', one-le-pow, div-div-eq-div-mul, div-one, div-add-mod, mod-lt, mod-eq_of_lt,
  mul-add-mod_self_right,
}

pub bit_or-zero : (a : ℕ) → bit_or a 0 ≡ a
bit_or-zero = halving (λ a. bit_or a 0 ≡ a) refl (λ a pos ih. omega (arith, bit_or_digit a 0, ih))

pub bit_and-zero : (a : ℕ) → bit_and a 0 ≡ 0
bit_and-zero =
    halving (λ a. bit_and a 0 ≡ 0) refl (λ a pos ih. omega (arith, bit_and_digit a 0, ih))

double : (x k : ℕ) → x * 2 ^ suc k ≡ 2 * (x * 2 ^ k)
double x k = omega (arith, ap (λ (t : ℕ). x * t) (pow-suc 2 k))

mod_unique : (q m r : ℕ) → r < m → (q * m + r) % m ≡ r
mod_unique q m r h = mul-add-mod_self_right q m r ∙ mod-eq_of_lt h

pub bit_and-mask : (n a : ℕ) → bit_and a (2 ^ n - 1) ≡ a % 2 ^ n
bit_and-mask zero a = bit_and-zero a ∙ omega arith
bit_and-mask (suc n) a = omega (
  arith,
  bit_and_digit a (2 ^ suc n - 1),
  pow-suc 2 n,
  one-le-pow n 2,
  ap (bit_and (a / 2)) lower,
  bit_and-mask n (a / 2),
  mod-pow-suc,
)
  where
    lower : (2 ^ suc n - 1) / 2 ≡ 2 ^ n - 1
    lower = omega (arith, pow-suc 2 n, one-le-pow n 2)

    parts : a ≡ a / 2 / 2 ^ n * 2 ^ suc n + (a / 2 % 2 ^ n * 2 + a % 2)
    parts = omega (arith, div-add-mod (a / 2) (2 ^ n), double (a / 2 / 2 ^ n) n)

    mod-pow-suc : a % 2 ^ suc n ≡ a / 2 % 2 ^ n * 2 + a % 2
    mod-pow-suc =
        ap (λ x. x % 2 ^ suc n) parts
        ∙ mod_unique (a / 2 / 2 ^ n) (2 ^ suc n) _
            (omega (arith, pow-suc 2 n, mod-lt (a / 2) (one-le-pow n 2 (omega arith))))

-- A field of `n` bits from bit `k` on, cut out by its mask.
pub bit_and-field : (k n a : ℕ) → bit_and a ((2 ^ n - 1) * 2 ^ k) ≡ a / 2 ^ k % 2 ^ n * 2 ^ k
bit_and-field zero n a =
    ap (bit_and a) (let e : (2 ^ n - 1) * 1 ≡ 2 ^ n - 1 = omega arith in e)
    ∙ bit_and-mask n a
    ∙ omega (arith, ap (λ (t : ℕ). t % 2 ^ n) (div-one a))
bit_and-field (suc k) n a = omega (
  arith,
  bit_and_digit a ((2 ^ n - 1) * 2 ^ suc k),
  double (2 ^ n - 1) k,
  ap (bit_and (a / 2)) shifted,
  bit_and-field k n (a / 2),
  double (a / 2 ^ suc k % 2 ^ n) k,
  ap (λ (t : ℕ). t % 2 ^ n * 2 ^ k)
      (let e : a / 2 / 2 ^ k ≡ a / 2 ^ suc k = rw (div-div-eq-div-mul, pow-succ') in e),
)
  where
    shifted : (2 ^ n - 1) * 2 ^ suc k / 2 ≡ (2 ^ n - 1) * 2 ^ k
    shifted = omega (arith, double (2 ^ n - 1) k)

-- Two fields that share no bit: the upper a multiple of `2 ^ k`, the lower below it.
pub bit_or-add : (k q r : ℕ) → r < 2 ^ k → bit_or (q * 2 ^ k) r ≡ q * 2 ^ k + r
bit_or-add zero q r h = ground (arith, bit_or-zero q)
bit_or-add (suc k) q r h = omega (
  arith,
  bit_or_digit (q * 2 ^ suc k) r,
  double q k,
  ap (λ x. bit_or x (r / 2))
      (let e : q * 2 ^ suc k / 2 ≡ q * 2 ^ k = omega (arith, double q k) in e),
  bit_or-add k q (r / 2) (omega (arith, pow-suc 2 k)),
)

-- The same with the lower field first.
pub add-bit_or : (k q r : ℕ) → r < 2 ^ k → bit_or r (q * 2 ^ k) ≡ r + q * 2 ^ k
add-bit_or zero q r h = let e : r ≡ 0 = omega arith in rw e (zero-bit_or (q * 1) ∙ omega arith)
add-bit_or (suc k) q r h = omega (
  arith,
  bit_or_digit r (q * 2 ^ suc k),
  double q k,
  ap (bit_or (r / 2)) (let e : q * 2 ^ suc k / 2 ≡ q * 2 ^ k = omega (arith, double q k) in e),
  add-bit_or k q (r / 2) (omega (arith, pow-suc 2 k)),
)
