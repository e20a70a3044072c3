-- ===== src/Codec/BitPack.antt =====
-- include/vectortick/codec/bitpack.hpp: the sizes of class BitPackU32.
use vector_tick.Common.{
  ℕ, zero, suc, ◌+◌, ◌*◌, ◌/◌, ◌%◌, ◌^◌, ◌≤◌, ◌<◌, ◌==◌, ◌≡◌, if◌then◌else◌, arith, Bool-cases, inl,
  inr, ne→==, ap, ◌∙◌, sym, refl,
}
use native.Mathlib.Nat.{pow-suc, mul_assoc, mul-le-mul_right}

-- The loop of `bits_required`; a u32 takes 32 rounds at most.
unfoldable pub bits_loop : ℕ → ℕ → ℕ → ℕ
bits_loop zero max_value bits = bits
bits_loop (suc fuel) max_value bits =
    let next = bits_loop fuel (max_value / 2) (bits + 1) in if max_value == 0 then bits else next

unfoldable pub bits_required : ℕ → ℕ
bits_required max_value = if max_value == 0 then 1 else bits_loop 32 max_value 0

unfoldable pub max_encoded_size : ℕ → ℕ → ℕ
max_encoded_size num_values bits =
    if bits == 0 then 0 else (num_values * bits % 2 ^ 64 + 7) % 2 ^ 64 / 8

pow_next : (b : ℕ) → 2 ^ (b + 1) ≡ 2 * 2 ^ b
pow_next b = ap (λ t. 2 ^ t) (let e : b + 1 ≡ suc b = omega arith in e) ∙ pow-suc 2 b ∙ omega arith

-- A factor of two on either side.
regroup : (x b : ℕ) → x * 2 ^ (b + 1) ≡ x * 2 * 2 ^ b
regroup x b = ap (λ t. x * t) (pow_next b) ∙ sym (mul_assoc x 2 (2 ^ b))

bits_loop-zero : (f b : ℕ) → bits_loop f 0 b ≡ b
unfolding bits_loop
bits_loop-zero zero b = refl
bits_loop-zero (suc f) b = refl

-- What the loop keeps: the width that it will reach.
bits_loop_width :
    (f m b : ℕ)
    → 0 < m
    → m < 2 ^ f
    → ((m + 1) * 2 ^ b ≤ 2 ^ bits_loop f m b) × (2 ^ bits_loop f m b ≤ 2 * m * 2 ^ b)
unfolding bits_loop
bits_loop_width zero m b p h = absurd (omega arith)
bits_loop_width (suc f) m b p h = rw (ne→== m 0 (omega arith)) (elim (Bool-cases (m / 2 == 0)) [
  | inl one ↦
      let e : m ≡ 1 = ground arith in
      rw (e, bits_loop-zero f (b + 1), pow_next b) (omega arith, omega arith)
  | inr more ↦
      let (up, down) =
        bits_loop_width f (m / 2) (b + 1) (ground arith) (omega (arith, pow-suc 2 f)) in
      let high : (m + 1) * 2 ^ b ≤ (m / 2 + 1) * 2 * 2 ^ b =
        mul-le-mul_right (2 ^ b) (omega arith) in
      let low : 2 * (m / 2) * 2 * 2 ^ b ≤ 2 * m * 2 ^ b = mul-le-mul_right (2 ^ b) (omega arith) in
      (omega (arith, regroup (m / 2 + 1) b), omega (arith, regroup (2 * (m / 2)) b))
])

-- For a positive u32, `BitPackU32::bits_required` is the least width that holds it: two to its power is
-- above the value and at most twice the value.
pub bits_required_lem :
    (max_value : ℕ)
    → 0 < max_value
    → max_value < 2 ^ 32
    → (max_value < 2 ^ bits_required max_value) × (2 ^ bits_required max_value ≤ 2 * max_value)
unfolding bits_required
bits_required_lem m p h =
    let (up, down) = bits_loop_width 32 m 0 p h in
    rw (ne→== m 0 (omega arith)) (omega arith, omega arith)
