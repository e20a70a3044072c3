-- ===== src/Bits/Xor.antt =====
-- Laws of `^` at every width.
use vector_tick.Common.{
  ℕ, zero, suc, ◌+◌, ◌*◌, ◌/◌, ◌%◌, ◌^◌, ◌<◌, bit_xor, ◌≡◌, refl, sym, ◌∙◌, ap, ap₂, arith,
}
use vector_tick.Bits.Digit.{halving, zero-bit_xor, bit_xor_digit}
use native.Mathlib.Nat.{pow-suc, pow-succ', div-one, div-div-eq-div-mul}

pub bit_xor-half : (a b : ℕ) → bit_xor a b / 2 ≡ bit_xor (a / 2) (b / 2)
bit_xor-half a b = omega (arith, bit_xor_digit a b)

pub bit_xor-odd : (a b : ℕ) → bit_xor a b % 2 ≡ (a + b) % 2
bit_xor-odd a b = omega (arith, bit_xor_digit a b)

pub bit_xor_self : (a : ℕ) → bit_xor a a ≡ 0
bit_xor_self =
    halving (λ a. bit_xor a a ≡ 0) refl (λ a pos ih. omega (arith, bit_xor_digit a a, ih))

pub bit_xor-zero : (a : ℕ) → bit_xor a 0 ≡ a
bit_xor-zero =
    halving (λ a. bit_xor a 0 ≡ a) refl (λ a pos ih. omega (arith, bit_xor_digit a 0, ih))

pub bit_xor_comm : (a b : ℕ) → bit_xor a b ≡ bit_xor b a
bit_xor_comm =
    halving (λ a. (b : ℕ) → bit_xor a b ≡ bit_xor b a) (λ b. zero-bit_xor b ∙ sym (bit_xor-zero b))
      (λ a pos ih b. omega (arith, bit_xor_digit a b, bit_xor_digit b a, ih (b / 2)))

pub bit_xor_assoc : (a b c : ℕ) → bit_xor (bit_xor a b) c ≡ bit_xor a (bit_xor b c)
bit_xor_assoc =
    halving (λ a. (b c : ℕ) → bit_xor (bit_xor a b) c ≡ bit_xor a (bit_xor b c))
      (λ b c. ap (λ x. bit_xor x c) (zero-bit_xor b) ∙ sym (zero-bit_xor (bit_xor b c)))
      (λ a pos ih b c. step a b c (ih (b / 2) (c / 2)))
  where
    step :
        (a b c : ℕ)
        → bit_xor (bit_xor (a / 2) (b / 2)) (c / 2) ≡ bit_xor (a / 2) (bit_xor (b / 2) (c / 2))
        → bit_xor (bit_xor a b) c ≡ bit_xor a (bit_xor b c)
    step a b c ih = omega (
      arith,
      bit_xor_digit (bit_xor a b) c,
      bit_xor_digit a (bit_xor b c),
      ap (λ x. bit_xor x (c / 2)) (bit_xor-half a b),
      ap (bit_xor (a / 2)) (bit_xor-half b c),
      bit_xor-odd a b,
      bit_xor-odd b c,
      ih,
    )

-- The exclusive or of two words of a width is a word of that width.
pub bit_xor-lt-pow : (k a b : ℕ) → a < 2 ^ k → b < 2 ^ k → bit_xor a b < 2 ^ k
bit_xor-lt-pow zero a b p q = omega (arith, bit_xor_digit a b, small)
  where
    small : bit_xor (a / 2) (b / 2) ≡ 0
    small =
        ap (λ x. bit_xor x (b / 2)) (let e : a / 2 ≡ 0 = omega arith in e)
        ∙ zero-bit_xor (b / 2)
        ∙ omega arith
bit_xor-lt-pow (suc k) a b p q = omega (
  arith,
  bit_xor_digit a b,
  pow-suc 2 k,
  bit_xor-lt-pow k (a / 2) (b / 2) (omega (arith, pow-suc 2 k)) (omega (arith, pow-suc 2 k)),
)

-- `^` on multiples of a power of two is `^` on the quotients.
pub bit_xor-mul-pow : (k a b : ℕ) → bit_xor (a * 2 ^ k) (b * 2 ^ k) ≡ bit_xor a b * 2 ^ k
bit_xor-mul-pow zero a b =
    ap (λ x. bit_xor x (b * 1)) (let e : a * 1 ≡ a = omega arith in e)
    ∙ ap (bit_xor a) (let e : b * 1 ≡ b = omega arith in e)
    ∙ omega arith
bit_xor-mul-pow (suc k) a b = omega (
  arith,
  bit_xor_digit (a * 2 ^ suc k) (b * 2 ^ suc k),
  halved a,
  halved b,
  ap (λ x. bit_xor x (b * 2 ^ suc k / 2)) (quotient a),
  ap (bit_xor (a * 2 ^ k)) (quotient b),
  bit_xor-mul-pow k a b,
  halved (bit_xor a b),
)
  where
    halved : (x : ℕ) → x * 2 ^ suc k ≡ 2 * (x * 2 ^ k)
    halved x = omega (arith, ap (λ (t : ℕ). x * t) (pow-suc 2 k))

    quotient : (x : ℕ) → x * 2 ^ suc k / 2 ≡ x * 2 ^ k
    quotient x = omega (arith, halved x)

-- Exclusive or of fields that share no bit.
pub bit_xor-add : (k q r : ℕ) → r < 2 ^ k → bit_xor r (q * 2 ^ k) ≡ r + q * 2 ^ k
bit_xor-add zero q r h = let e : r ≡ 0 = omega arith in rw e (zero-bit_xor (q * 1) ∙ omega arith)
bit_xor-add (suc k) q r h = omega (
  arith,
  bit_xor_digit r (q * 2 ^ suc k),
  double,
  ap (bit_xor (r / 2)) (let e : q * 2 ^ suc k / 2 ≡ q * 2 ^ k = omega (arith, double) in e),
  bit_xor-add k q (r / 2) (omega (arith, pow-suc 2 k)),
)
  where
    double : q * 2 ^ suc k ≡ 2 * (q * 2 ^ k)
    double = omega (arith, ap (λ (t : ℕ). q * t) (pow-suc 2 k))

pub bit_xor-div-pow : (k a b : ℕ) → bit_xor a b / 2 ^ k ≡ bit_xor (a / 2 ^ k) (b / 2 ^ k)
bit_xor-div-pow zero a b = rw (div-one a, div-one b, div-one (bit_xor a b))
bit_xor-div-pow (suc k) a b =
    sym (halves (bit_xor a b))
    ∙ ap (λ x. x / 2 ^ k) (bit_xor-half a b)
    ∙ bit_xor-div-pow k (a / 2) (b / 2)
    ∙ ap₂ bit_xor (halves a) (halves b)
  where
    halves : (x : ℕ) → x / 2 / 2 ^ k ≡ x / 2 ^ suc k
    halves x = rw (div-div-eq-div-mul, pow-succ')
