-- ===== src/Codec/Varint.antt =====
-- include/vectortick/codec/varint.hpp: VarIntU and VarIntI. An encoder returns the memory and the
-- number of bytes, a decoder the number of bytes and the value that it leaves.
pub mod RoundTrip
use vector_tick.Common.{
  ℕ, zero, suc, ◌+◌, ◌*◌, ◌/◌, ◌%◌, ◌^◌, bit_and, bit_or, leb, ◌==◌, if◌then◌else◌,
}
use vector_tick.Common.Int.{ℤ}
use vector_tick.Memory.{Mem, store_byte}
use vector_tick.Codec.ZigZag.{encode_i64, decode_i64}

abbrev pub max_size : ℕ
max_size = 10

-- The byte of one round: seven bits, and the continuation bit if more follow.
abbrev pub group : ℕ → ℕ → ℕ
group value rest = if rest == 0 then bit_and value 0x7F else bit_or (bit_and value 0x7F) 0x80

-- The do-while loop of `encode`; a u64 takes ten rounds at most.
unfoldable pub encode_loop : ℕ → ℕ → Mem → ℕ → ℕ → Mem × ℕ
encode_loop zero value output output_size written = (output, 0)
encode_loop (suc fuel) value output output_size written =
    let rest = value / 2 ^ 7 in
    let output' = store_byte output written (group value rest) in
    let next = encode_loop fuel rest output' output_size (written + 1) in
    if leb output_size written
    then (output, 0)
    else (if rest == 0 then (output', written + 1) else next)

abbrev pub encode_u64 : ℕ → Mem → ℕ → Mem × ℕ
encode_u64 value output output_size = encode_loop max_size value output output_size 0

-- The loop of `decode`; the fuel is what is left of `MaxSize`.
unfoldable pub decode_loop : ℕ → Mem → ℕ → ℕ → ℕ → ℕ → ℕ × ℕ
decode_loop zero input input_size i value shift = (0, value)
decode_loop (suc fuel) input input_size i value shift =
    let b = input i in
    let value' = bit_or value (bit_and b 0x7F * 2 ^ shift % 2 ^ 64) in
    let next = decode_loop fuel input input_size (i + 1) value' (shift + 7) in
    if leb input_size i then (0, value) else (if bit_and b 0x80 == 0 then (i + 1, value') else next)

abbrev pub decode_u64 : Mem → ℕ → ℕ × ℕ
decode_u64 input input_size = decode_loop max_size input input_size 0 0 0

-- VarIntI::encode
abbrev pub encode_signed : ℤ → Mem → ℕ → Mem × ℕ
encode_signed value output output_size = encode_u64 (encode_i64 value) output output_size

-- VarIntI::decode, where the value is left as it was before on an error.
unfoldable pub decode_signed : Mem → ℕ → ℤ → ℕ × ℤ
decode_signed input input_size value =
    let (consumed, zigzag) = decode_u64 input input_size in
    if consumed == 0 then (0, value) else (consumed, decode_i64 zigzag)
