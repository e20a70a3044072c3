-- ===== src/Endian/Swap.antt =====
-- The shift-and-mask expressions of `host_to_network` reverse the bytes.
use vector_tick.Common.{ℕ, ◌+◌, ◌*◌, ◌/◌, ◌%◌, ◌^◌, ◌<◌, bit_and, bit_or, ◌≡◌, ◌∙◌, ap, ap₂, arith}
use vector_tick.Bits.Field.{bit_and-field, add-bit_or}
use vector_tick.Endian.{swap_u16, swap_u32, swap_u64}

pub swap_u16_bytes : (a b : ℕ) → a < 256 → b < 256 → swap_u16 (a + 256 * b) ≡ b + 256 * a
unfolding swap_u16
swap_u16_bytes a b ha hb =
    omega (arith, add-bit_or 8 (a + 256 * b) ((a + 256 * b) / 2 ^ 8) (omega arith))

-- `r | f`, where `r` is the `k` bits `s` and `f` the byte `b` above them.
or_byte : (k b : ℕ) {r f s : ℕ} → r ≡ s → s < 2 ^ k → f ≡ b * 2 ^ k → bit_or r f ≡ s + b * 2 ^ k
or_byte k b {s = s} e h e' = ap₂ bit_or e e' ∙ add-bit_or k b s h

-- The byte at bit `k` of `x`, left in place by its mask.
mask_byte : (k x b : ℕ) → x / 2 ^ k % 2 ^ 8 ≡ b → bit_and x (0xff * 2 ^ k) ≡ b * 2 ^ k
mask_byte k x b e = bit_and-field k 8 x ∙ ap (λ (t : ℕ). t * 2 ^ k) e

pub swap_u32_bytes :
    (a b c d : ℕ)
    → a < 256
    → b < 256
    → c < 256
    → d < 256
    → swap_u32 (a + 256 * (b + 256 * (c + 256 * d))) ≡ d + 256 * (c + 256 * (b + 256 * a))
unfolding swap_u32
swap_u32_bytes a b c d ha hb hc hd =
    let v : ℕ = a + 256 * (b + 256 * (c + 256 * d)) in
    let m0 : bit_and (v / 2 ^ 24) 0xff ≡ d = mask_byte 0 _ d (omega arith) ∙ omega arith in
    let m1 = mask_byte 8 (v / 2 ^ 8) c (omega arith) in
    let m2 = mask_byte 16 (v * 2 ^ 8 % 2 ^ 32) b (omega arith) in
    let m3 = mask_byte 24 (v * 2 ^ 24 % 2 ^ 32) a (omega arith) in
    let low16 = or_byte 8 c m0 (omega arith) m1 in
    let low24 = or_byte 16 b low16 (omega arith) m2 in
    or_byte 24 a low24 (omega arith) m3 ∙ omega arith

pub swap_u64_bytes :
    (a b c d e f g h : ℕ)
    → (a < 256) × (b < 256) × (c < 256) × (d < 256)
    → (e < 256) × (f < 256) × (g < 256) × (h < 256)
    → swap_u64 (a + 256 * (b + 256 * (c + 256 * (d + 256 * (e + 256 * (f + 256 * (g + 256 * h)))))))
      ≡ h + 256 * (g + 256 * (f + 256 * (e + 256 * (d + 256 * (c + 256 * (b + 256 * a))))))
unfolding swap_u64
swap_u64_bytes a b c d e f g h lo hi =
    let v : ℕ =
      a + 256 * (b + 256 * (c + 256 * (d + 256 * (e + 256 * (f + 256 * (g + 256 * h)))))) in
    let m0 : bit_and (v / 2 ^ 56) 0xff ≡ h = mask_byte 0 _ h (omega arith) ∙ omega arith in
    let m1 = mask_byte 8 (v / 2 ^ 40) g (omega arith) in
    let m2 = mask_byte 16 (v / 2 ^ 24) f (omega arith) in
    let m3 = mask_byte 24 (v / 2 ^ 8) e (omega arith) in
    let m4 = mask_byte 32 (v * 2 ^ 8 % 2 ^ 64) d (omega arith) in
    let m5 = mask_byte 40 (v * 2 ^ 24 % 2 ^ 64) c (omega arith) in
    let m6 = mask_byte 48 (v * 2 ^ 40 % 2 ^ 64) b (omega arith) in
    let m7 = mask_byte 56 (v * 2 ^ 56 % 2 ^ 64) a (omega arith) in
    let low16 = or_byte 8 g m0 (omega arith) m1 in
    let low24 = or_byte 16 f low16 (omega arith) m2 in
    let low32 = or_byte 24 e low24 (omega arith) m3 in
    let low40 = or_byte 32 d low32 (omega arith) m4 in
    let low48 = or_byte 40 c low40 (omega arith) m5 in
    let low56 = or_byte 48 b low48 (omega arith) m6 in
    or_byte 56 a low56 (omega arith) m7 ∙ omega arith
