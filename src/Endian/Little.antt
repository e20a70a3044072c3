-- ===== src/Endian/Little.antt =====
-- The little-endian readers and writers that serve PCAP files: little-endian loads and stores on
-- every host.
use vector_tick.Common.{
  ℕ, ◌+◌, ◌-◌, ◌^◌, ◌<◌, ◌≡◌, ◌∙◌, ap, fun_ext, Bool, true, false, refl, arith,
}
use vector_tick.Memory.{Mem, IsBytes, store, load_le}
use vector_tick.Endian.{swap_u16, swap_u32, swap_u64, read_le_u16, read_le_u32, read_le_u64}
use vector_tick.Endian.{write_le_u16, write_le_u32, write_le_u64}
use vector_tick.Endian.Swap.{swap_u16_bytes, swap_u32_bytes, swap_u64_bytes}
use vector_tick.Endian.Network.{byte_of-swap_u16, byte_of-swap_u32, byte_of-swap_u64}

-- A little-endian load, whatever the host.
pub read_le_u16-load_le :
    (little : Bool) (m : Mem) (a : ℕ) → IsBytes m → read_le_u16 little m a ≡ load_le 2 m a
unfolding read_le_u16
read_le_u16-load_le false m a b =
    ap swap_u16 (omega arith) ∙ swap_u16_bytes (m (a + 1)) (m a) (b (a + 1)) (b a) ∙ omega arith
read_le_u16-load_le true m a b = refl

-- A little-endian store, whatever the host.
pub write_le_u16-store :
    (little : Bool) (m : Mem) (a v : ℕ)
    → v < 2 ^ 16
    → write_le_u16 little m a v ≡ store true 2 m a v
unfolding write_le_u16
write_le_u16-store false m a v h = fun_ext λ i. ground (arith, byte_of-swap_u16 v (1 - (i - a)) h)
write_le_u16-store true m a v h = refl

-- A little-endian load, whatever the host.
pub read_le_u32-load_le :
    (little : Bool) (m : Mem) (a : ℕ) → IsBytes m → read_le_u32 little m a ≡ load_le 4 m a
unfolding read_le_u32
read_le_u32-load_le false m a b =
    ap swap_u32 (omega arith)
    ∙ swap_u32_bytes (m (a + 1 + 1 + 1)) (m (a + 1 + 1)) (m (a + 1)) (m a) (b (a + 1 + 1 + 1))
        (b (a + 1 + 1)) (b (a + 1)) (b a)
    ∙ omega arith
read_le_u32-load_le true m a b = refl

-- A little-endian store, whatever the host.
pub write_le_u32-store :
    (little : Bool) (m : Mem) (a v : ℕ)
    → v < 2 ^ 32
    → write_le_u32 little m a v ≡ store true 4 m a v
unfolding write_le_u32
write_le_u32-store false m a v h = fun_ext λ i. ground (arith, byte_of-swap_u32 v (3 - (i - a)) h)
write_le_u32-store true m a v h = refl

-- On a host of either byte order `read_le_u64` gives the number whose eight bytes at the pointer stand
-- with the lowest first.
pub read_le_u64-load_le :
    (little : Bool) (m : Mem) (a : ℕ) → IsBytes m → read_le_u64 little m a ≡ load_le 8 m a
unfolding read_le_u64
read_le_u64-load_le false m a b =
    ap swap_u64 (omega arith)
    ∙ swap_u64_bytes (m (a + 1 + 1 + 1 + 1 + 1 + 1 + 1)) (m (a + 1 + 1 + 1 + 1 + 1 + 1))
        (m (a + 1 + 1 + 1 + 1 + 1)) (m (a + 1 + 1 + 1 + 1)) (m (a + 1 + 1 + 1)) (m (a + 1 + 1))
        (m (a + 1)) (m a)
        (
          (b (a + 1 + 1 + 1 + 1 + 1 + 1 + 1)),
          (b (a + 1 + 1 + 1 + 1 + 1 + 1)),
          (b (a + 1 + 1 + 1 + 1 + 1)),
          (b (a + 1 + 1 + 1 + 1)),
        )
        ((b (a + 1 + 1 + 1)), (b (a + 1 + 1)), (b (a + 1)), (b a))
    ∙ omega arith
read_le_u64-load_le true m a b = refl

-- On a host of either byte order `write_le_u64` of a u64 leaves its eight bytes with the lowest first
-- at the pointer, and all else as it was.
pub write_le_u64-store :
    (little : Bool) (m : Mem) (a v : ℕ)
    → v < 2 ^ 64
    → write_le_u64 little m a v ≡ store true 8 m a v
unfolding write_le_u64
write_le_u64-store false m a v h = fun_ext λ i. ground (arith, byte_of-swap_u64 v (7 - (i - a)) h)
write_le_u64-store true m a v h = refl
