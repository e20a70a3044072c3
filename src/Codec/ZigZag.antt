-- ===== src/Codec/ZigZag.antt =====
-- include/vectortick/codec/bitpack.hpp: class ZigZag on 64 bits. The code shifts and negates signed
-- values; here they are the words that represent them.
use vector_tick.Common.{
  ℕ, zero, suc, ◌+◌, ◌-◌, ◌*◌, ◌/◌, ◌%◌, ◌^◌, ◌<◌, bit_and, bit_xor, ◌==◌, if◌then◌else◌, ◌≡◌, ◌∙◌,
  ap, arith,
}
use vector_tick.Common.Int.{ℤ, pos, negsuc, IsI64, to_i64, to_u64, to_i64-to_u64}
use vector_tick.Bits.Digit.{bit_xor_digit}
use vector_tick.Bits.Xor.{bit_xor-zero}
use vector_tick.Bits.Field.{bit_and-mask}
use native.Mathlib.Nat.{pow-suc, one-le-pow}

-- `value >> 63` of an i64, as a word: all ones for a negative value.
abbrev sign_mask : ℤ → ℕ
sign_mask (pos n) = 0
sign_mask (negsuc n) = 2 ^ 64 - 1

unfoldable pub encode_i64 : ℤ → ℕ
encode_i64 value = bit_xor (to_u64 value * 2 % 2 ^ 64) (sign_mask value)

-- `-(static_cast<i64>(value) & 1)` as a word is 0 or all ones.
abbrev low_mask : ℕ → ℕ
low_mask value = if bit_and value 1 == 0 then 0 else 2 ^ 64 - 1

unfoldable pub decode_i64 : ℕ → ℤ
decode_i64 value = to_i64 (bit_xor (value / 2) (low_mask value))

-- Against all ones, `^` is the complement.
bit_xor-ones : (k a : ℕ) → a < 2 ^ k → bit_xor a (2 ^ k - 1) ≡ 2 ^ k - 1 - a
bit_xor-ones zero a h = let e : a ≡ 0 = omega arith in rw e (bit_xor-zero 0)
bit_xor-ones (suc k) a h = omega (
  arith,
  bit_xor_digit a (2 ^ suc k - 1),
  pow-suc 2 k,
  one-le-pow k 2,
  ap (bit_xor (a / 2))
      (let e : (2 ^ suc k - 1) / 2 ≡ 2 ^ k - 1 = omega (arith, pow-suc 2 k, one-le-pow k 2) in e),
  bit_xor-ones k (a / 2) (omega (arith, pow-suc 2 k)),
)

-- The numbers that the map takes: 0, -1, 1, -2, … go to 0, 1, 2, 3, …
pub encode_i64-pos : (n : ℕ) → n < 2 ^ 63 → encode_i64 (pos n) ≡ 2 * n
unfolding encode_i64 to_u64
encode_i64-pos n h = bit_xor-zero _ ∙ omega arith

pub encode_i64-negsuc : (n : ℕ) → n < 2 ^ 63 → encode_i64 (negsuc n) ≡ 2 * n + 1
unfolding encode_i64 to_u64
encode_i64-negsuc n h = bit_xor-ones 64 _ (omega arith) ∙ omega arith

pub encode_i64-lt : (z : ℤ) → IsI64 z → encode_i64 z < 2 ^ 64
encode_i64-lt (pos n) h = omega (arith, encode_i64-pos n h)
encode_i64-lt (negsuc n) h = omega (arith, encode_i64-negsuc n h)

word_even : (n : ℕ) → bit_xor (2 * n / 2) (low_mask (2 * n)) ≡ n
word_even n =
    rw (let e : low_mask (2 * n) ≡ 0 = ground (arith, bit_and-mask 1 (2 * n)) in e)
      (bit_xor-zero _ ∙ omega arith)

word_odd : (n : ℕ) → n < 2 ^ 63 → bit_xor ((2 * n + 1) / 2) (low_mask (2 * n + 1)) ≡ 2 ^ 64 - 1 - n
word_odd n h =
    rw (let e : low_mask (2 * n + 1) ≡ 2 ^ 64 - 1 = ground (arith, bit_and-mask 1 (2 * n + 1)) in e)
      (bit_xor-ones 64 _ (omega arith) ∙ omega arith)

-- `ZigZag::decode` undoes `ZigZag::encode` on every i64.
pub decode_i64-encode_i64 : (z : ℤ) → IsI64 z → decode_i64 (encode_i64 z) ≡ z
unfolding decode_i64 to_u64
decode_i64-encode_i64 (pos n) h =
    ap decode_i64 (encode_i64-pos n h) ∙ ap to_i64 (word_even n) ∙ to_i64-to_u64 (pos n) h
decode_i64-encode_i64 (negsuc n) h =
    ap decode_i64 (encode_i64-negsuc n h) ∙ ap to_i64 (word_odd n h) ∙ to_i64-to_u64 (negsuc n) h
