-- ===== src/Crc32c.antt =====
-- src/common/crc32c.cpp: CRC32C by table, by the CRC instructions of the processor, and `combine`.
-- The static members are the record `Crc`; a processor with CRC instructions is a `CrcUnit`.
pub mod Reference
pub mod Table
pub mod Hardware
pub mod Combine
pub mod Checksum
use vector_tick.Common.{
  ℕ, zero, suc, ◌-◌, ◌/◌, ◌%◌, ◌^◌, ◌≤◌, Bool, true, false, ◌==◌, leb, ltb, if◌then◌else◌, Option,
  none, some, List, [], ◌∷◌, bit_and, bit_xor, ◌≡◌,
}
use vector_tick.Memory.{Mem, shift, load, bytes}

-- `table_` and `initialized_`.
pub record Crc : Type 0 where
  pub initialized : Bool
  pub table : ℕ → ℕ

-- Static storage starts zeroed.
abbrev pub start : Crc
start = record { initialized = false; table = λ i. 0 }

abbrev pub polynomial : ℕ
polynomial = 0x82F63B78

-- The body of the inner loop of `init`.
pub round : ℕ → ℕ
round crc = if bit_and crc 1 == 0 then crc / 2 else bit_xor (crc / 2) polynomial

pub rounds : ℕ → ℕ → ℕ
rounds zero crc = crc
rounds (suc j) crc = rounds j (round crc)

-- The loop of `init` over the table.
abbrev pub filled : Crc → Crc
filled c = record { initialized = true; table = λ i. if ltb i 256 then rounds 8 i else c.table i }

pub init : Crc → Crc
init c = if c.initialized then c else filled c

-- The body of the loop of `compute_sw`.
pub table_step : Crc → ℕ → ℕ → ℕ
table_step c crc b = bit_xor (c.table (bit_and (bit_xor crc b) 0xFF)) (crc / 2 ^ 8)

pub table_loop : Crc → ℕ → List ℕ → ℕ
table_loop c crc [] = crc
table_loop c crc (b ∷ bs) = table_loop c (table_step c crc b) bs

pub compute_sw : Crc → ℕ → Mem → ℕ → Crc × ℕ
compute_sw c init_crc m length = let c' = init c in (c', table_loop c' init_crc (bytes m length))

-- The CRC instructions of SSE4.2 or of ARMv8: accumulator and operand to accumulator.
pub record CrcUnit : Type 0 where
  pub crc_u64 : ℕ → ℕ → ℕ
  pub crc_u32 : ℕ → ℕ → ℕ
  pub crc_u16 : ℕ → ℕ → ℕ
  pub crc_u8 : ℕ → ℕ → ℕ

-- What the build selects: the host's byte order, and its CRC instructions if it has any
-- (`is_hw_supported`).
pub record Platform : Type 0 where
  pub little : Bool
  pub unit : Option CrcUnit

-- The loops of `compute_sse42` and `compute_arm`, which differ in the instructions' names. The fuel is
-- the length, which falls by 8 in each round.
pub unit_blocks : Bool → CrcUnit → ℕ → Mem → ℕ → ℕ → Mem × ℕ × ℕ
unit_blocks little u zero m crc length = (m, crc, length)
unit_blocks little u (suc fuel) m crc length =
    let rest =
      unit_blocks little u fuel (shift m 8) (u.crc_u64 crc (load little 8 m 0) % 2 ^ 32)
        (length - 8) in
    if leb 8 length then rest else (m, crc, length)

pub unit_four : Bool → CrcUnit → Mem × ℕ × ℕ → Mem × ℕ × ℕ
unit_four little u (m, crc, length) =
    if leb 4 length
    then (shift m 4, u.crc_u32 crc (load little 4 m 0), length - 4)
    else (m, crc, length)

pub unit_two : Bool → CrcUnit → Mem × ℕ × ℕ → Mem × ℕ × ℕ
unit_two little u (m, crc, length) =
    if leb 2 length
    then (shift m 2, u.crc_u16 crc (load little 2 m 0), length - 2)
    else (m, crc, length)

pub unit_one : CrcUnit → Mem × ℕ × ℕ → ℕ
unit_one u (m, crc, length) = if leb 1 length then u.crc_u8 crc (m 0) else crc

pub compute_unit : Bool → CrcUnit → ℕ → Mem → ℕ → ℕ
unfolding unit_blocks unit_four unit_two unit_one
compute_unit little u init_crc m length =
    unit_one u
      (unit_two little u (unit_four little u (unit_blocks little u length m init_crc length)))

-- The choice of routine in `compute`.
pub dispatch : Option CrcUnit → Bool → Crc → ℕ → Mem → ℕ → Crc × ℕ
dispatch (some u) little c acc m length = (c, compute_unit little u acc m length)
dispatch none little c acc m length = compute_sw c acc m length

-- `compute(init_crc, data, length)`; a null pointer is `none`.
pub compute : Platform → Crc → ℕ → Option Mem → ℕ → Crc × ℕ
compute p c init_crc none length = (c, init_crc)
compute p c init_crc (some m) length =
    let (c', acc) = dispatch p.unit p.little c (bit_xor init_crc 0xFFFFFFFF) m length in
    if length == 0 then (c, init_crc) else (c', bit_xor acc 0xFFFFFFFF)

-- The loop of `combine`, one round for each byte of B.
pub combine_loop : Crc → ℕ → ℕ → ℕ
combine_loop c result zero = result
combine_loop c result (suc len) =
    combine_loop c (bit_xor (result / 2 ^ 8) (c.table (bit_and result 0xFF))) len

pub combine : Crc → ℕ → ℕ → ℕ → ℕ
unfolding combine_loop
combine c crc_a crc_b len_b =
    if len_b == 0 then crc_a else bit_xor (combine_loop c crc_a len_b) crc_b
