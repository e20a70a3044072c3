-- ===== src/Tests/Words.antt =====
-- The theorems of the codecs, of checked arithmetic and of made events at concrete numbers.
use vector_tick.Common.{◌*◌, ◌^◌, ◌<◌, ◌≤◌, none, some, ◌≡◌, refl, arith, ltb, if◌then◌else◌}
use vector_tick.Common.Int.{pos, negsuc, i64_max}
use vector_tick.Memory.{Mem}
use vector_tick.Codec.ZigZag.{encode_i64, encode_i64-lt, decode_i64, decode_i64-encode_i64}
use vector_tick.Codec.Varint.{encode_loop, encode_u64, decode_u64, encode_signed, decode_signed}
use vector_tick.Codec.Varint.RoundTrip.{decode_u64-encode_u64, decode_signed-encode_signed}
use vector_tick.Codec.BitPack.{bits_required, bits_required_lem}
use vector_tick.CheckedMath.{
  ◌+ℤ◌, ◌-ℤ◌, checked_mul_u64, checked_add_i64, checked_sub_i64, checked_abs_i64,
  saturating_add_i64,
}
use vector_tick.CheckedMath.Exact.{
  IsExact, IsClamped, checked_add_i64-IsExact, checked_sub_i64-IsExact, checked_abs_i64-IsExact,
  saturating_add_i64-IsClamped, checked_mul_u64-exact,
}

abbrev blank : Mem
blank i = 0

decode_i64-encode_i64_example : decode_i64 (encode_i64 (negsuc 41)) ≡ negsuc 41
decode_i64-encode_i64_example = decode_i64-encode_i64 (negsuc 41) (omega arith)

encoded_two : (encode_u64 300 blank 10).1 ≡ 2
unfolding encode_loop
encoded_two = refl

decode_u64-encode_u64_example :
    ((0 < (encode_u64 300 blank 10).1) × ((encode_u64 300 blank 10).1 ≤ 10))
    × (decode_u64 (encode_u64 300 blank 10).0 2 ≡ ((encode_u64 300 blank 10).1, 300))
decode_u64-encode_u64_example =
    decode_u64-encode_u64 300 blank 10 2 (omega arith) (omega arith) (omega (arith, encoded_two))

signed_short : (encode_signed (negsuc 149) blank 10).1 ≤ 10
signed_short =
    (decode_u64-encode_u64 (encode_i64 (negsuc 149)) blank 10
      (encode_signed (negsuc 149) blank 10).1 (encode_i64-lt (negsuc 149) (omega arith))
      (omega arith) (omega arith)).0.1

decode_signed-encode_signed_example :
    decode_signed (encode_signed (negsuc 149) blank 10).0 10 (pos 0)
    ≡ ((encode_signed (negsuc 149) blank 10).1, negsuc 149)
decode_signed-encode_signed_example =
    decode_signed-encode_signed (negsuc 149) (pos 0) blank 10 10 (omega arith) (omega arith)
      signed_short

checked_add_i64-IsExact_example : IsExact (checked_add_i64 i64_max (pos 1)) (i64_max +ℤ pos 1)
checked_add_i64-IsExact_example =
    checked_add_i64-IsExact i64_max (pos 1) (omega arith) (omega arith)

checked_sub_i64-IsExact_example : IsExact (checked_sub_i64 (pos 3) (negsuc 4)) (pos 3 -ℤ negsuc 4)
checked_sub_i64-IsExact_example =
    checked_sub_i64-IsExact (pos 3) (negsuc 4) (omega arith) (omega arith)

checked_abs_i64-IsExact_example : IsExact (checked_abs_i64 (negsuc 4)) (pos 5)
checked_abs_i64-IsExact_example = checked_abs_i64-IsExact (negsuc 4) (omega arith)

saturating_add_i64-IsClamped_example :
    IsClamped (saturating_add_i64 i64_max (pos 7)) (i64_max +ℤ pos 7)
saturating_add_i64-IsClamped_example =
    saturating_add_i64-IsClamped i64_max (pos 7) (omega arith) (omega arith)

checked_mul_u64-exact_example :
    checked_mul_u64 12 13 ≡ (if ltb (12 * 13) (2 ^ 64) then some (12 * 13) else none)
checked_mul_u64-exact_example = checked_mul_u64-exact 12 13 (omega arith) (omega arith)

bits_required_lem_example : (1000 < 2 ^ bits_required 1000) × (2 ^ bits_required 1000 ≤ 2 * 1000)
bits_required_lem_example = bits_required_lem 1000 (omega arith) (omega arith)
