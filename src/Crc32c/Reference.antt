-- ===== src/Crc32c/Reference.antt =====
-- CRC32C one bit at a time, and its linearity.
use vector_tick.Common.{
  ℕ, zero, suc, ◌+◌, ◌*◌, ◌/◌, ◌%◌, ◌^◌, ◌<◌, List, [], ◌∷◌, ◌++◌, bit_xor, ◌≡◌, refl, sym, ◌∙◌, ap,
  ap₂, arith, ◌==◌, if◌then◌else◌,
}
use vector_tick.Bits.Digit.{zero-bit_xor}
use vector_tick.Bits.Field.{bit_and-mask}
use vector_tick.Bits.Xor.{
  bit_xor-zero, bit_xor-half, bit_xor-odd, bit_xor_self, bit_xor_assoc, bit_xor_comm,
  bit_xor-lt-pow,
}
use native.Mathlib.Nat.{pow-suc}
use vector_tick.Crc32c.{polynomial, round, rounds}

-- One byte: exclusive or into the accumulator, then eight rounds of the polynomial.
unfoldable pub crc_step : ℕ → ℕ → ℕ
crc_step acc b = rounds 8 (bit_xor acc b)

unfoldable pub crc_bytes : ℕ → List ℕ → ℕ
crc_bytes acc [] = acc
crc_bytes acc (b ∷ bs) = crc_bytes (crc_step acc b) bs

-- The CRC32C of a message.
unfoldable pub crc32c : List ℕ → ℕ
crc32c bs = bit_xor (crc_bytes 0xFFFFFFFF bs) 0xFFFFFFFF

pub crc_bytes-append :
    (acc : ℕ) (xs ys : List ℕ) → crc_bytes acc (xs ++ ys) ≡ crc_bytes (crc_bytes acc xs) ys
unfolding crc_bytes
crc_bytes-append acc [] ys = refl
crc_bytes-append acc (x ∷ xs) ys = crc_bytes-append (crc_step acc x) xs ys

-- What a round adds, by the lowest bit.
feedback : ℕ → ℕ
feedback b = if b == 0 then 0 else polynomial

round_lem : (x : ℕ) → round x ≡ bit_xor (x / 2) (feedback (x % 2))
unfolding round feedback
round_lem x = ground (arith, bit_and-mask 1 x, bit_xor-zero (x / 2))

-- Regrouping four operands.
pub bit_xor_middle :
    (a b c d : ℕ) → bit_xor (bit_xor a b) (bit_xor c d) ≡ bit_xor (bit_xor a c) (bit_xor b d)
bit_xor_middle a b c d =
    bit_xor_assoc a b (bit_xor c d)
    ∙ ap (bit_xor a)
        (sym (bit_xor_assoc b c d) ∙ ap (λ x. bit_xor x d) (bit_xor_comm b c) ∙ bit_xor_assoc c b d)
    ∙ sym (bit_xor_assoc a c (bit_xor b d))

feedback-bit_xor :
    (x y : ℕ) → feedback ((x + y) % 2) ≡ bit_xor (feedback (x % 2)) (feedback (y % 2))
unfolding feedback
feedback-bit_xor x y =
    ground (arith, bit_xor-zero polynomial, zero-bit_xor polynomial, bit_xor_self polynomial)

pub round-bit_xor : (x y : ℕ) → round (bit_xor x y) ≡ bit_xor (round x) (round y)
round-bit_xor x y =
    round_lem (bit_xor x y)
    ∙ ap₂ bit_xor (bit_xor-half x y) (ap feedback (bit_xor-odd x y) ∙ feedback-bit_xor x y)
    ∙ bit_xor_middle (x / 2) (y / 2) (feedback (x % 2)) (feedback (y % 2))
    ∙ sym (ap₂ bit_xor (round_lem x) (round_lem y))

pub rounds-bit_xor : (k x y : ℕ) → rounds k (bit_xor x y) ≡ bit_xor (rounds k x) (rounds k y)
unfolding rounds
rounds-bit_xor zero x y = refl
rounds-bit_xor (suc k) x y =
    ap (rounds k) (round-bit_xor x y) ∙ rounds-bit_xor k (round x) (round y)

round-even : (x : ℕ) → round (2 * x) ≡ x
unfolding round
round-even x = ground (arith, bit_and-mask 1 (2 * x))

-- `k` rounds shift out `k` zero bits.
pub rounds-zeros : (k x : ℕ) → rounds k (x * 2 ^ k) ≡ x
unfolding rounds
rounds-zeros zero x = omega arith
rounds-zeros (suc k) x =
    ap (λ y. rounds k (round y)) (omega (arith, ap (λ (t : ℕ). x * t) (pow-suc 2 k)))
    ∙ ap (rounds k) (round-even (x * 2 ^ k))
    ∙ rounds-zeros k x

pub round-lt : (x : ℕ) → x < 2 ^ 32 → round x < 2 ^ 32
unfolding round
round-lt x h = ground (arith, bit_xor-lt-pow 32 (x / 2) polynomial)

pub rounds-lt : (k x : ℕ) → x < 2 ^ 32 → rounds k x < 2 ^ 32
unfolding rounds
rounds-lt zero x h = h
rounds-lt (suc k) x h = rounds-lt k (round x) (round-lt x h)
