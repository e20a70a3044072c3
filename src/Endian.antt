-- ===== src/Endian.antt =====
-- include/vectortick/common/endian.hpp: byte order conversion. `little` is the answer of
-- detail::is_little_endian() on the host. A signed reader or writer casts from or to the unsigned one.
pub mod Swap
pub mod Network
pub mod Little
pub mod RoundTrip
pub mod Local
use vector_tick.Common.{ℕ, ◌*◌, ◌/◌, ◌%◌, ◌^◌, bit_and, bit_or, Bool, if◌then◌else◌}
use vector_tick.Common.Int.{ℤ, to_i64, to_u64}
use vector_tick.Memory.{Mem, store, load}

-- The three expressions of `host_to_network` on a little-endian host.
unfoldable pub swap_u16 : ℕ → ℕ
swap_u16 v = bit_or (v / 2 ^ 8) (v * 2 ^ 8) % 2 ^ 16

unfoldable pub swap_u32 : ℕ → ℕ
swap_u32 v =
    bit_or
      (bit_or (bit_or (bit_and (v / 2 ^ 24) 0x000000FF) (bit_and (v / 2 ^ 8) 0x0000FF00))
        (bit_and (v * 2 ^ 8 % 2 ^ 32) 0x00FF0000))
      (bit_and (v * 2 ^ 24 % 2 ^ 32) 0xFF000000)

unfoldable pub swap_u64 : ℕ → ℕ
swap_u64 v =
    bit_or
      (bit_or
        (bit_or
          (bit_or
            (bit_or
              (bit_or
                (bit_or (bit_and (v / 2 ^ 56) 0x00000000000000FF)
                  (bit_and (v / 2 ^ 40) 0x000000000000FF00))
                (bit_and (v / 2 ^ 24) 0x0000000000FF0000))
              (bit_and (v / 2 ^ 8) 0x00000000FF000000))
            (bit_and (v * 2 ^ 8 % 2 ^ 64) 0x000000FF00000000))
          (bit_and (v * 2 ^ 24 % 2 ^ 64) 0x0000FF0000000000))
        (bit_and (v * 2 ^ 40 % 2 ^ 64) 0x00FF000000000000))
      (bit_and (v * 2 ^ 56 % 2 ^ 64) 0xFF00000000000000)

module _ (little : Bool) where
  unfoldable pub host_to_network_u16 : ℕ → ℕ
  host_to_network_u16 v = if little then swap_u16 v else v

  unfoldable pub host_to_network_u32 : ℕ → ℕ
  host_to_network_u32 v = if little then swap_u32 v else v

  unfoldable pub host_to_network_u64 : ℕ → ℕ
  host_to_network_u64 v = if little then swap_u64 v else v

  unfoldable pub read_be_u16 : Mem → ℕ → ℕ
  unfolding host_to_network_u16
  read_be_u16 m a = host_to_network_u16 (load little 2 m a)

  unfoldable pub read_be_u32 : Mem → ℕ → ℕ
  unfolding host_to_network_u32
  read_be_u32 m a = host_to_network_u32 (load little 4 m a)

  unfoldable pub read_be_u64 : Mem → ℕ → ℕ
  unfolding host_to_network_u64
  read_be_u64 m a = host_to_network_u64 (load little 8 m a)

  unfoldable pub read_be_i64 : Mem → ℕ → ℤ
  read_be_i64 m a = to_i64 (read_be_u64 m a)

  unfoldable pub write_be_u16 : Mem → ℕ → ℕ → Mem
  unfolding host_to_network_u16
  write_be_u16 m a v = store little 2 m a (host_to_network_u16 v)

  unfoldable pub write_be_u32 : Mem → ℕ → ℕ → Mem
  unfolding host_to_network_u32
  write_be_u32 m a v = store little 4 m a (host_to_network_u32 v)

  unfoldable pub write_be_u64 : Mem → ℕ → ℕ → Mem
  unfolding host_to_network_u64
  write_be_u64 m a v = store little 8 m a (host_to_network_u64 v)

  unfoldable pub write_be_i64 : Mem → ℕ → ℤ → Mem
  write_be_i64 m a v = write_be_u64 m a (to_u64 v)

  -- The PCAP readers and writers swap on the other kind of host.
  unfoldable pub read_le_u16 : Mem → ℕ → ℕ
  read_le_u16 m a = let v = load little 2 m a in if little then v else swap_u16 v

  unfoldable pub read_le_u32 : Mem → ℕ → ℕ
  read_le_u32 m a = let v = load little 4 m a in if little then v else swap_u32 v

  unfoldable pub read_le_u64 : Mem → ℕ → ℕ
  read_le_u64 m a = let v = load little 8 m a in if little then v else swap_u64 v

  unfoldable pub write_le_u16 : Mem → ℕ → ℕ → Mem
  write_le_u16 m a v = store little 2 m a (if little then v else swap_u16 v)

  unfoldable pub write_le_u32 : Mem → ℕ → ℕ → Mem
  write_le_u32 m a v = store little 4 m a (if little then v else swap_u32 v)

  unfoldable pub write_le_u64 : Mem → ℕ → ℕ → Mem
  write_le_u64 m a v = store little 8 m a (if little then v else swap_u64 v)
