-- ===== src/Endian/RoundTrip.antt =====
-- A value that one host writes is the value that any host reads, and a write leaves the rest alone.
use vector_tick.Common.{ℕ, ◌+◌, ◌-◌, ◌^◌, ◌<◌, ◌≡◌, ◌∙◌, ap, Bool, false, arith}
use vector_tick.Common.Int.{ℤ, IsI64, to_i64, to_u64, to_u64-lt, to_i64-to_u64}
use vector_tick.Memory.{Mem, IsBytes, byte_of, store_byte, store, load_be}
use vector_tick.Endian.{read_be_u16, read_be_u32, read_be_u64, read_be_i64}
use vector_tick.Endian.{write_be_u16, write_be_u32, write_be_u64, write_be_i64}
use vector_tick.Endian.Network.{read_be_u16-load_be, read_be_u32-load_be, read_be_u64-load_be}
use vector_tick.Endian.Network.{write_be_u16-store, write_be_u32-store, write_be_u64-store}

pub store-IsBytes :
    (little : Bool) (n : ℕ) (m : Mem) (a v : ℕ) → IsBytes m → IsBytes (store little n m a v)
store-IsBytes little n m a v b i = ground (arith, b i)

-- Byte `j` of what was stored at `a`.
store-at :
    (n : ℕ) (m : Mem) (a v i j : ℕ)
    → i ≡ a + j
    → j < n
    → store false n m a v i ≡ byte_of v (n - 1 - j)
store-at n m a v i j e h = let d : i - a ≡ j = omega arith in ground (arith, d)

load_be-store_16 : (m : Mem) (a v : ℕ) → v < 2 ^ 16 → load_be 2 (store false 2 m a v) a ≡ v
load_be-store_16 m a v h = omega (
  arith,
  store-at 2 m a v a 0 (omega arith) (omega arith),
  store-at 2 m a v (a + 1) 1 (omega arith) (omega arith),
)

-- What one host writes at `a`, any host reads back from `a`.
pub read_be_u16-write_be_u16 :
    (writer reader : Bool) (m : Mem) (a v : ℕ)
    → IsBytes m
    → v < 2 ^ 16
    → read_be_u16 reader (write_be_u16 writer m a v) a ≡ v
read_be_u16-write_be_u16 writer reader m a v b h =
    rw (write_be_u16-store writer m a v h)
      (read_be_u16-load_be reader _ a (store-IsBytes false 2 m a v b) ∙ load_be-store_16 m a v h)

load_be-store_32 : (m : Mem) (a v : ℕ) → v < 2 ^ 32 → load_be 4 (store false 4 m a v) a ≡ v
load_be-store_32 m a v h = omega (
  arith,
  store-at 4 m a v a 0 (omega arith) (omega arith),
  store-at 4 m a v (a + 1) 1 (omega arith) (omega arith),
  store-at 4 m a v (a + 1 + 1) 2 (omega arith) (omega arith),
  store-at 4 m a v (a + 1 + 1 + 1) 3 (omega arith) (omega arith),
)

-- What one host writes at `a`, any host reads back from `a`.
pub read_be_u32-write_be_u32 :
    (writer reader : Bool) (m : Mem) (a v : ℕ)
    → IsBytes m
    → v < 2 ^ 32
    → read_be_u32 reader (write_be_u32 writer m a v) a ≡ v
read_be_u32-write_be_u32 writer reader m a v b h =
    rw (write_be_u32-store writer m a v h)
      (read_be_u32-load_be reader _ a (store-IsBytes false 4 m a v b) ∙ load_be-store_32 m a v h)

load_be-store_64 : (m : Mem) (a v : ℕ) → v < 2 ^ 64 → load_be 8 (store false 8 m a v) a ≡ v
load_be-store_64 m a v h = omega (
  arith,
  store-at 8 m a v a 0 (omega arith) (omega arith),
  store-at 8 m a v (a + 1) 1 (omega arith) (omega arith),
  store-at 8 m a v (a + 1 + 1) 2 (omega arith) (omega arith),
  store-at 8 m a v (a + 1 + 1 + 1) 3 (omega arith) (omega arith),
  store-at 8 m a v (a + 1 + 1 + 1 + 1) 4 (omega arith) (omega arith),
  store-at 8 m a v (a + 1 + 1 + 1 + 1 + 1) 5 (omega arith) (omega arith),
  store-at 8 m a v (a + 1 + 1 + 1 + 1 + 1 + 1) 6 (omega arith) (omega arith),
  store-at 8 m a v (a + 1 + 1 + 1 + 1 + 1 + 1 + 1) 7 (omega arith) (omega arith),
)

-- What one host writes at `a`, any host reads back from `a`.
pub read_be_u64-write_be_u64 :
    (writer reader : Bool) (m : Mem) (a v : ℕ)
    → IsBytes m
    → v < 2 ^ 64
    → read_be_u64 reader (write_be_u64 writer m a v) a ≡ v
read_be_u64-write_be_u64 writer reader m a v b h =
    rw (write_be_u64-store writer m a v h)
      (read_be_u64-load_be reader _ a (store-IsBytes false 8 m a v b) ∙ load_be-store_64 m a v h)

-- `read_be_i64` on a host of either byte order gets back the i64 that `write_be_i64` on a host of either
-- byte order wrote at that place over bytes.
pub read_be_i64-write_be_i64 :
    (writer reader : Bool) (m : Mem) (a : ℕ) (z : ℤ)
    → IsBytes m
    → IsI64 z
    → read_be_i64 reader (write_be_i64 writer m a z) a ≡ z
unfolding read_be_i64 write_be_i64
read_be_i64-write_be_i64 writer reader m a z b h =
    ap to_i64 (read_be_u64-write_be_u64 writer reader m a (to_u64 z) b (to_u64-lt z h))
    ∙ to_i64-to_u64 z h

pub store_byte-IsBytes : (m : Mem) (a v : ℕ) → IsBytes m → v < 256 → IsBytes (store_byte m a v)
store_byte-IsBytes m a v b h i = ground (arith, b i)
