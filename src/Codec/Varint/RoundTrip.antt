-- ===== src/Codec/Varint/RoundTrip.antt =====
-- That the decoders of varint.hpp read back what the encoders write.
use vector_tick.Common.{
  ℕ, zero, suc, ◌+◌, ◌*◌, ◌/◌, ◌%◌, ◌^◌, ◌<◌, ◌≤◌, bit_and, bit_or, leb, ◌==◌, if◌then◌else◌, ◌≡◌,
  inl, inr, refl, ◌∙◌, ap, arith, true, false, Bool-cases, ne→==,
}
use vector_tick.Common.Int.{ℤ, IsI64}
use vector_tick.Memory.{Mem, store_byte}
use vector_tick.Bits.Field.{bit_and-mask, bit_and-field, add-bit_or}
use vector_tick.Codec.ZigZag.{encode_i64, encode_i64-lt, decode_i64-encode_i64}
use vector_tick.Codec.Varint.{
  group, encode_loop, decode_loop, encode_u64, decode_u64, encode_signed, decode_signed,
}
use native.Mathlib.Nat.{pow-suc, add-mul, mul_assoc, mul-le-mul_right}

-- A byte of the encoding as a number, and what the decoder reads off it.
group_value : (v rest : ℕ) → group v rest ≡ (if rest == 0 then v % 128 else v % 128 + 128)
group_value v rest =
    let low = bit_and-mask 7 v in
    let more = bit_or_low (bit_and v 0x7F) (omega arith) in ground arith
  where
    bit_or_low : (x : ℕ) → x < 128 → bit_or x 0x80 ≡ x + 128
    bit_or_low x h = add-bit_or 7 1 x h

group_low : (v rest : ℕ) → bit_and (group v rest) 0x7F ≡ v % 128
group_low v rest = bit_and-mask 7 (group v rest) ∙ ground (arith, group_value v rest)

group_more : (v rest : ℕ) → (bit_and (group v rest) 0x80 == 0) ≡ (rest == 0)
group_more v rest =
    let field : bit_and (group v rest) 0x80 ≡ group v rest / 128 % 2 * 128 =
      bit_and-field 7 1 (group v rest) in
    ground (arith, group_value v rest)

pow_add : (s k : ℕ) → 2 ^ (s + k) ≡ 2 ^ k * 2 ^ s
pow_add s zero = ap (λ t. 2 ^ t) (let e : s + 0 ≡ s = omega arith in e) ∙ omega arith
pow_add s (suc k) =
    ap (λ t. 2 ^ t) (let e : s + suc k ≡ suc (s + k) = omega arith in e)
    ∙ pow-suc 2 (s + k)
    ∙ ap (λ t. t * 2) (pow_add s k)
    ∙ grind (arith, pow-suc 2 k, mul_assoc (2 ^ k) (2 ^ s) 2, mul_assoc (2 ^ k) 2 (2 ^ s))

-- Seven bits and the rest, each at its place.
places : (v p : ℕ) → v * p ≡ v % 128 * p + v / 128 * (128 * p)
places v p =
    ap (λ t. t * p) (let e : v ≡ v % 128 + v / 128 * 128 = omega arith in e)
    ∙ add-mul (v % 128) (v / 128 * 128) p
    ∙ ap (λ t. v % 128 * p + t) (mul_assoc (v / 128) 128 p)

module _ (f : ℕ) (m : Mem) (size i acc shift v : ℕ) where
  placed :
      acc < 2 ^ shift
      → acc + v * 2 ^ shift < 2 ^ 64
      → bit_or acc (v % 128 * 2 ^ shift % 2 ^ 64) ≡ acc + v % 128 * 2 ^ shift
  placed low fits =
      ap (bit_or acc) (
        let e : v % 128 * 2 ^ shift % 2 ^ 64 ≡ v % 128 * 2 ^ shift =
          omega (arith, places v (2 ^ shift)) in
        e)
      ∙ add-bit_or shift (v % 128) acc low

  -- The last round of the decoder on a byte of the encoder, and a round before.
  decode_last :
      m i ≡ group v (v / 2 ^ 7)
      → v / 2 ^ 7 == 0 ≡ true
      → i < size
      → acc < 2 ^ shift
      → acc + v * 2 ^ shift < 2 ^ 64
      → decode_loop (suc f) m size i acc shift ≡ (i + 1, acc + v % 128 * 2 ^ shift)
  unfolding decode_loop
  decode_last b last room low fits =
      let inside : leb size i ≡ false = ground arith in
      rw (inside, b, group_low v (v / 2 ^ 7), group_more v (v / 2 ^ 7), placed low fits, last)

  decode_more :
      m i ≡ group v (v / 2 ^ 7)
      → v / 2 ^ 7 == 0 ≡ false
      → i < size
      → acc < 2 ^ shift
      → acc + v * 2 ^ shift < 2 ^ 64
      → decode_loop (suc f) m size i acc shift
        ≡ decode_loop f m size (i + 1) (acc + v % 128 * 2 ^ shift) (shift + 7)
  unfolding decode_loop
  decode_more b more room low fits =
      let inside : leb size i ≡ false = ground arith in
      rw (inside, b, group_low v (v / 2 ^ 7), group_more v (v / 2 ^ 7), placed low fits, more)

-- The rounds of the encoder.
module _ (f v : ℕ) (m : Mem) (size written : ℕ) (room : written < size) where
  abbrev output : Mem
  output = store_byte m written (group v (v / 2 ^ 7))

  encode_last : v / 2 ^ 7 == 0 ≡ true → encode_loop (suc f) v m size written ≡ (output, written + 1)
  unfolding encode_loop
  encode_last last = let inside : leb size written ≡ false = ground arith in rw (inside, last)

  encode_more :
      v / 2 ^ 7 == 0 ≡ false
      → encode_loop (suc f) v m size written ≡ encode_loop f (v / 2 ^ 7) output size (written + 1)
  unfolding encode_loop
  encode_more more = let inside : leb size written ≡ false = ground arith in rw (inside, more)

earlier :
    (f v : ℕ) (m : Mem) (size written i : ℕ)
    → i < written
    → (encode_loop f v m size written).0 i ≡ m i
unfolding encode_loop
earlier zero v m size written i h = refl
earlier (suc f) v m size written i h =
    let ih =
      earlier f (v / 2 ^ 7) (store_byte m written (group v (v / 2 ^ 7))) size (written + 1) i
        (omega arith) in
    ground (arith, ih)

-- The number of bytes, where there is room for as many as the fuel.
encode_loop_count :
    (f v : ℕ) (m : Mem) (size written : ℕ)
    → v < 128 ^ suc f
    → written + suc f ≤ size
    → (written < (encode_loop (suc f) v m size written).1)
      × ((encode_loop (suc f) v m size written).1 ≤ written + suc f)
encode_loop_count zero v m size written h room =
    rw (encode_last 0 v m size written (omega arith) (ground arith)) (omega arith)
encode_loop_count (suc f) v m size written h room = elim (Bool-cases (v / 2 ^ 7 == 0)) [
  | inl last ↦ rw (encode_last (suc f) v m size written (omega arith) last) (omega arith)
  | inr more ↦
      let (a, b) =
        encode_loop_count f (v / 2 ^ 7) (output (suc f) v m size written (omega arith)) size
          (written + 1) (omega (arith, pow-suc 128 (suc f))) (omega arith) in
      rw (encode_more (suc f) v m size written (omega arith) more) (omega arith, omega arith)
]

-- The case of the last round.
decode-encode_last :
    (f v : ℕ) (m : Mem) (size written acc shift input_size : ℕ)
    → v / 2 ^ 7 == 0 ≡ true
    → written < size
    → (encode_loop (suc f) v m size written).1 ≤ input_size
    → acc < 2 ^ shift
    → acc + v * 2 ^ shift < 2 ^ 64
    → decode_loop (suc f) (encode_loop (suc f) v m size written).0 input_size written acc shift
      ≡ ((encode_loop (suc f) v m size written).1, acc + v * 2 ^ shift)
decode-encode_last f v m size written acc shift input_size last room all low fits =
    let e = encode_last f v m size written room last in
    let there : written + 1 ≤ input_size = rw e at all in
    rw e (
      decode_last f _ input_size written acc shift v (ground arith) last (omega arith) low fits
      ∙ ap (λ t. (written + 1, acc + t * 2 ^ shift)) (let d : v % 128 ≡ v = ground arith in d))

-- The decoder from where the encoder stands.
decode_loop-encode_loop :
    (f v : ℕ) (m : Mem) (size written acc shift input_size : ℕ)
    → v < 128 ^ suc f
    → written + suc f ≤ size
    → (encode_loop (suc f) v m size written).1 ≤ input_size
    → acc < 2 ^ shift
    → acc + v * 2 ^ shift < 2 ^ 64
    → decode_loop (suc f) (encode_loop (suc f) v m size written).0 input_size written acc shift
      ≡ ((encode_loop (suc f) v m size written).1, acc + v * 2 ^ shift)
decode_loop-encode_loop zero v m size written acc shift input_size h room all low fits =
    decode-encode_last 0 v m size written acc shift input_size (ground arith) (omega arith) all low
      fits
decode_loop-encode_loop (suc f) v m size written acc shift input_size h room all low fits =
    elim (Bool-cases (v / 2 ^ 7 == 0)) [
      | inl last ↦
          decode-encode_last (suc f) v m size written acc shift input_size last (omega arith) all
            low fits
      | inr more ↦
          let out = output (suc f) v m size written (omega arith) in
          let e = encode_more (suc f) v m size written (omega arith) more in
          let all' : (encode_loop (suc f) (v / 2 ^ 7) out size (written + 1)).1 ≤ input_size =
            rw e at all in
          let h' : v / 2 ^ 7 < 128 ^ suc f = omega (arith, pow-suc 128 (suc f)) in
          let n = encode_loop_count f (v / 2 ^ 7) out size (written + 1) h' (omega arith) in
          let acc' = acc + v % 128 * 2 ^ shift in
          let up = pow_add shift 7 in
          let parts : acc' + v / 128 * 2 ^ (shift + 7) ≡ acc + v * 2 ^ shift =
            omega (arith, up, places v (2 ^ shift), ap (λ t. v / 128 * t) up) in
          rw e (
            decode_more (suc f) _ input_size written acc shift v
              (earlier (suc f) (v / 2 ^ 7) out size (written + 1) written (omega arith)
                ∙ ground arith)
              more (omega arith) low fits
            ∙ decode_loop-encode_loop f (v / 2 ^ 7) out size (written + 1) acc' (shift + 7)
                input_size h' (omega arith) all'
                (omega (
                  arith,
                  up,
                  mul-le-mul_right (2 ^ shift) (let g : v % 128 ≤ 127 = omega arith in g),
                ))
                (rw parts fits)
            ∙ ap (λ t. ((encode_loop (suc f) (v / 2 ^ 7) out size (written + 1)).1, t)) parts)
    ]

module _ (v : ℕ) (output : Mem) (output_size input_size : ℕ) (fits : v < 2 ^ 64)
    (room : 10 ≤ output_size) where
  -- With ten bytes of room, `VarIntU::encode` writes one to ten bytes, and `VarIntU::decode` of at
  -- least those bytes consumes exactly them and gives the value.
  pub decode_u64-encode_u64 :
      (encode_u64 v output output_size).1 ≤ input_size
      → ((0 < (encode_u64 v output output_size).1) × ((encode_u64 v output output_size).1 ≤ 10))
        × (decode_u64 (encode_u64 v output output_size).0 input_size
            ≡ ((encode_u64 v output output_size).1, v))
  decode_u64-encode_u64 all = (
    encode_loop_count 9 v output output_size 0 (omega arith) room,
    decode_loop-encode_loop 9 v output output_size 0 0 0 input_size (omega arith) room all
          (omega arith) (omega arith)
        ∙ ap (λ t. ((encode_u64 v output output_size).1, t)) (omega arith),
  )

module _ (z before : ℤ) (output : Mem) (output_size input_size : ℕ) (fits : IsI64 z)
    (room : 10 ≤ output_size) where
  -- With ten bytes of room, `VarIntI::decode` of what `VarIntI::encode` wrote of an i64 consumes all
  -- of it and gives the value.
  pub decode_signed-encode_signed :
      (encode_signed z output output_size).1 ≤ input_size
      → decode_signed (encode_signed z output output_size).0 input_size before
        ≡ ((encode_signed z output output_size).1, z)
  unfolding decode_signed
  decode_signed-encode_signed all =
      let ((low, high), e) =
        decode_u64-encode_u64 (encode_i64 z) output output_size input_size (encode_i64-lt z fits)
          room all in
      rw (
        e,
        decode_i64-encode_i64 z fits,
        ne→== (encode_u64 (encode_i64 z) output output_size).1 0 (omega arith),
      )
